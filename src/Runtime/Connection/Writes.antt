-- ===== src/Runtime/Connection/Writes.antt =====
-- `writeResponse` and `writeAllResponse` of browserruntime/connection.go. `json.Marshal` and the
-- writer are arguments: a call of `Write` gives the number it claims to have written, whether it
-- returned an error, and the writer after it. The loop runs on fuel.
use openlinker_plugin.Base.{
  append_assoc, ℕ, zero, suc, ◌+◌, ◌-◌, ◌≤◌, ◌≡◌, refl, ap, sym, ◌∙◌, String, Bool, true, false,
  ◌||◌, Option, none, some, List, [], ◌∷◌, ◌++◌, arith, ltb, ◌==◌, if◌then◌else◌, length, ℤ, pos,
  pos_part, lt_int,
}
use openlinker_plugin.Protocol.Types.{ErrorCode}
use openlinker_plugin.Protocol.Failure.{new_failure}
use openlinker_plugin.Protocol.Request.{Response, success, error, error_response}

pub data Outcome : Type 0 where
  complete short_write write_error : Outcome

-- The bytes that the writer took, in order, and how the loop ended.
pub record Written (W : Type 0) : Type 0 where
  pub sent : List ℕ
  pub outcome : Outcome
  pub writer : W

abbrev pub take : ℕ → List ℕ → List ℕ
take zero bytes = []
take (suc n) [] = []
take (suc n) (b ∷ bytes) = b ∷ take n bytes

abbrev pub drop : ℕ → List ℕ → List ℕ
drop zero bytes = bytes
drop (suc n) [] = []
drop (suc n) (b ∷ bytes) = drop n bytes

module _ {W : Type 0} (write : W → List ℕ → ℤ × Bool × W) where
  after_piece : List ℕ → Option (Written W) → Option (Written W)
  after_piece piece none = none
  after_piece piece (some later) = some (record later { sent = piece ++ later.sent })

  stop : List ℕ → Outcome → W → Option (Written W)
  stop piece outcome w = some (record { sent = piece; outcome = outcome; writer = w })

  -- writeAllResponse; `none` when the fuel runs out.
  unfoldable pub write_all : ℕ → W → List ℕ → Option (Written W)
  unfolding after_piece stop
  write_all fuel w [] = stop [] complete w
  write_all zero w (b ∷ bytes) = none
  write_all (suc fuel) w (b ∷ bytes) =
      let (written, failed, next) = write w (b ∷ bytes) in
      let n = pos_part written in
      let rest = write_all fuel next (drop n (b ∷ bytes)) in
      if lt_int written (pos 0) || lt_int (pos (length (b ∷ bytes))) written
      then stop [] short_write next
      else if failed
      then stop (take n (b ∷ bytes)) write_error next
      else if n == 0
      then stop [] short_write next
      else after_piece (take n (b ∷ bytes)) rest

  -- The loop ended, and took a part of the bytes from their start: all of them when it is complete.
  pub data Ends (value : List ℕ) (o : Option (Written W)) : Type 0 where
    ends :
        (out : Written W) (rest : List ℕ)
        → o ≡ some out
        → value ≡ out.sent ++ rest
        → (out.outcome ≡ complete → rest ≡ [])
        → Ends value o

  take-drop : (n : ℕ) (bytes : List ℕ) → bytes ≡ take n bytes ++ drop n bytes
  take-drop zero bytes = refl
  take-drop (suc n) [] = refl
  take-drop (suc n) (b ∷ bytes) = ap (λ bs. b ∷ bs) (take-drop n bytes)

  length-drop : (n : ℕ) (bytes : List ℕ) → length (drop n bytes) ≡ length bytes - n
  length-drop zero bytes = omega arith
  length-drop (suc n) [] = omega arith
  length-drop (suc n) (b ∷ bytes) = omega (arith, length-drop n bytes)

  drop_shorter :
      (n : ℕ) (value : List ℕ) (fuel : ℕ)
      → (n == 0) ≡ false
      → length value ≤ suc fuel
      → length (drop n value) ≤ fuel
  drop_shorter n value fuel z h = ground (arith, length-drop n value)

  stop-Ends :
      (value piece rest : List ℕ) (outcome : Outcome) (w : W)
      → value ≡ piece ++ rest
      → (outcome ≡ complete → rest ≡ [])
      → Ends value (stop piece outcome w)
  unfolding stop
  stop-Ends value piece rest outcome w h c =
      ends (record { sent = piece; outcome = outcome; writer = w }) rest refl h c

  piece-Ends :
      (n : ℕ) (value : List ℕ) (o : Option (Written W))
      → Ends (drop n value) o
      → Ends value (after_piece (take n value) o)
  unfolding after_piece
  piece-Ends n value o (ends out rest e h c) = rw e (
      ends (record out { sent = take n value ++ out.sent }) rest refl
        (take-drop n value
          ∙ (ap (λ l. take n value ++ l) h ∙ sym (append_assoc (take n value) out.sent rest)))
        c)

  pick-Ends :
      (value : List ℕ) (b : Bool) (x y : Option (Written W))
      → (b ≡ true → Ends value x)
      → (b ≡ false → Ends value y)
      → Ends value (if b then x else y)
  pick-Ends value true x y h k = h refl
  pick-Ends value false x y h k = k refl

  write_all-Ends :
      (fuel : ℕ) (w : W) (value : List ℕ)
      → length value ≤ fuel
      → Ends value (write_all fuel w value)
  unfolding write_all
  write_all-Ends fuel w [] h = stop-Ends [] [] [] complete w refl (λ _. refl)
  write_all-Ends zero w (b ∷ bytes) h = absurd (omega arith)
  write_all-Ends (suc fuel) w (b ∷ bytes) h =
      let (written, failed, next) = write w (b ∷ bytes) in
      let n = pos_part written in
      let value = b ∷ bytes in
      pick-Ends value (lt_int written (pos 0) || lt_int (pos (length value)) written) _ _
        (λ _. stop-Ends value [] value short_write next refl (λ c. cc))
        (λ _.
          pick-Ends value failed _ _
            (λ _.
              stop-Ends value (take n value) (drop n value) write_error next (take-drop n value)
                (λ c. cc))
            (λ _.
              pick-Ends value (n == 0) _ _
                (λ _. stop-Ends value [] value short_write next refl (λ c. cc))
                (λ z.
                  piece-Ends n value _
                    (write_all-Ends fuel next (drop n value) (drop_shorter n value fuel z h)))))

module _ (marshal : Response → Option (List ℕ)) (max_response_bytes : ℕ) where
  oversized : String → Response
  oversized request_id =
      error_response request_id
        (new_failure ErrorCode.output_too_large "browser response exceeds the output limit" false)

  abbrev pub request_id_of : Response → String
  request_id_of (success request_id observation) = request_id
  request_id_of (error request_id failure) = request_id

  abbrev marshalled : Option (List ℕ) → List ℕ
  marshalled none = []
  marshalled (some bytes) = bytes

  fitting : Response → Option (List ℕ) → List ℕ
  unfolding oversized
  fitting response none = marshalled (marshal (oversized (request_id_of response)))
  fitting response (some bytes) =
      if ltb max_response_bytes (length bytes + 1)
      then marshalled (marshal (oversized (request_id_of response)))
      else bytes

  -- The line that `writeResponse` writes: the response, or an error in its place when it is too
  -- large.
  unfoldable pub response_line : Response → List ℕ
  unfolding fitting
  response_line response = fitting response (marshal response) ++ (b'\n' ∷ [])

  module _ {W : Type 0} (write : W → List ℕ → ℤ × Bool × W) where
    -- writeResponse, with fuel for every byte of its line.
    unfoldable pub write_response : W → Response → Option (Written W)
    write_response w response =
        write_all write (length (response_line response)) w (response_line response)

    -- Whatever the writer claims to have written, the loop that writes a response comes to an end
    -- within as many rounds as its line has bytes; what was written is a part of that line from its
    -- start, and the whole line when no error is returned.
    pub write_response-Ends :
        (w : W) (response : Response)
        → Ends write (response_line response) (write_response w response)
    unfolding write_response
    write_response-Ends w response =
        write_all-Ends write (length (response_line response)) w (response_line response)
          (omega arith)
