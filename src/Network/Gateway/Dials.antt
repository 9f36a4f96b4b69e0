-- ===== src/Network/Gateway/Dials.antt =====
-- What the gateway resolves and dials: addresses that are not blocked, at most eight of them.
use openlinker_plugin.Base.{
  ℕ, zero, suc, ◌+◌, ◌≤◌, ◌≡◌, ◌≢◌, refl, sym, ap, Bool, true, false, Option, none, some, List, [],
  ◌∷◌, ◌++◌, map, arith, length, min, All, ℤ, pos, lt_int, eq_int, guarded_some, or-false,
}
use openlinker_plugin.Network.Hosts.{trim_codes, trim_dot}
use openlinker_plugin.Network.Addresses.{Ip, is_blocked_ip}
use openlinker_plugin.Network.Gateway.{
  Target, atoi, validate_port, validate_port_number, any_blocked, resolved_public, resolve_public,
  dial_each, open_tunnel, max_tunnel_dial_addresses, literal_or_name, resolve_trimmed, dialled,
}

abbrev pub Unblocked : List Ip → Type 0
Unblocked = All (λ a. is_blocked_ip a ≡ false)

abbrev pub destination_port : Bool → ℕ
destination_port true = 443
destination_port false = 80

-- The targets are the first of the addresses, each with the port.
abbrev pub Aims : List ℕ → List Ip → List Target → Type 0
Aims port addresses targets =
    ((rest : List Ip) × (addresses ≡ map Target.address targets ++ rest))
    × All (λ t. t.port ≡ port) targets

eq_int-pos : (z : ℤ) (n : ℕ) → eq_int z (pos n) ≡ true → lt_int (pos 0) z ≡ true → z ≡ pos n
eq_int-pos (pos m) n h k = ground arith
eq_int-pos (ℤ.negsuc m) n h k = ground arith

port_number :
    (o : Option ℤ) (secure : Bool)
    → validate_port_number o secure ≡ none
    → o ≡ some (pos (destination_port secure))
unfolding validate_port_number
port_number none secure h = ground arith
port_number (some z) true h = ap some (eq_int-pos z 443 (ground arith) (ground arith))
port_number (some z) false h = ap some (eq_int-pos z 80 (ground arith) (ground arith))

pub valid_port :
    (port : List ℕ) (secure : Bool)
    → validate_port port secure ≡ none
    → atoi port ≡ some (pos (destination_port secure))
unfolding validate_port
valid_port port secure h = port_number (atoi port) secure h

any_blocked-Unblocked : (found : List Ip) → any_blocked found ≡ false → Unblocked found
unfolding any_blocked
any_blocked-Unblocked [] h = tt
any_blocked-Unblocked (a ∷ rest) h =
    let (first, others) = or-false h in (first, any_blocked-Unblocked rest others)

abbrev Chosen : List Ip → Type 0
Chosen found = Unblocked found × (found ≢ [])

cons_given : (a : Ip) (rest : List Ip) → (a ∷ rest) ≢ []
cons_given a rest h = ground arith

resolved-Unblocked :
    (o : Option (List Ip)) (found : List Ip) → resolved_public o ≡ some found → Chosen found
unfolding resolved_public
resolved-Unblocked none found h = ground arith
resolved-Unblocked (some []) found h = ground arith
resolved-Unblocked (some (a ∷ rest)) found h =
    let (fine, same) = guarded_some (any_blocked (a ∷ rest)) (a ∷ rest) found h in
    rw (sym same) (any_blocked-Unblocked (a ∷ rest) fine, cons_given a rest)

module _ (lower_rune : ℕ → ℕ) (parse_ip : List ℕ → Option Ip)
    (lookup_ip : List ℕ → Option (List Ip)) where
  literal-Unblocked :
      (host : List ℕ) (o : Option Ip) (found : List Ip)
      → literal_or_name lower_rune parse_ip lookup_ip host o ≡ some found
      → Chosen found
  unfolding literal_or_name
  literal-Unblocked host none found h = resolved-Unblocked (lookup_ip host) found h
  literal-Unblocked host (some ip) found h =
      let (fine, same) = guarded_some (is_blocked_ip ip) (ip ∷ []) found h in
      rw (sym same) ((fine, tt), cons_given ip [])

  pub resolve-Chosen :
      (host : List ℕ) (found : List Ip)
      → resolve_public lower_rune parse_ip lookup_ip host ≡ some found
      → Chosen found
  unfolding resolve_public resolve_trimmed
  resolve-Chosen host found h = ground (
    arith,
    literal-Unblocked (trim_codes (trim_dot host)) (parse_ip (trim_codes (trim_dot host))) found,
  )

-- The loop of `openTunnel`.
module _ {C : Type 0} (dial : ℕ → Target → Option C) where
  Aims-more :
      (address : Ip) (port : List ℕ) (rest : List Ip) (targets : List Target)
      → Aims port rest targets
      → Aims port (address ∷ rest) (record { address = address; port = port } ∷ targets)
  Aims-more address port rest targets ((others, same), ports) =
      ((others, ap (λ found. address ∷ found) same), (refl, ports))

  dialled-Aims :
      (n : ℕ) (address : Ip) (port : List ℕ) (rest : List Ip) (now : Option C)
      (later : List Target × Option C)
      → Aims port rest later.0 × (length later.0 ≤ n)
      → (let target : Target = record { address = address; port = port } in
          Aims port (address ∷ rest) (dialled dial target now later).0
          × (length (dialled dial target now later).0 ≤ suc n))
  unfolding dialled
  dialled-Aims n address port rest (some c) later (aims, few) =
      (((rest, refl), (refl, tt)), omega arith)
  dialled-Aims n address port rest none later (aims, few) =
      (Aims-more address port rest later.0 aims, omega (arith, few))

  dial_each-Aims :
      (n index : ℕ) (addresses : List Ip) (port : List ℕ)
      → Aims port addresses (dial_each dial n index addresses port).0
        × (length (dial_each dial n index addresses port).0 ≤ n)
  unfolding dial_each
  dial_each-Aims zero index addresses port = (((addresses, refl), tt), omega arith)
  dial_each-Aims (suc n) index [] port = ((([], refl), tt), omega arith)
  dial_each-Aims (suc n) index (a ∷ rest) port =
      dialled-Aims n a port rest (dial index (record { address = a; port = port }))
        (dial_each dial n (index + 1) rest port) (dial_each-Aims n (index + 1) rest port)

  pub open_tunnel-Aims :
      (addresses : List Ip) (port : List ℕ)
      → Aims port addresses (open_tunnel dial addresses port).0
        × (length (open_tunnel dial addresses port).0 ≤ max_tunnel_dial_addresses)
  unfolding open_tunnel
  open_tunnel-Aims addresses port =
      let (aims, few) =
        dial_each-Aims (min max_tunnel_dial_addresses (length addresses)) 0 addresses port in
      (aims, omega (arith, few))
