-- ===== src/Runtime/Server.antt =====
-- The part of `Server` (packages/browser-runtime/browserruntime/server.go) that `seenMu` guards, and
-- the scope changes of connection.go that open every operation on it.
use openlinker_plugin.Base.{ℕ, String, Bool, false, List, [], ◌=s=◌, if◌then◌else◌, same_codes}
use openlinker_plugin.Protocol.Types.{Identity, TargetCategory}
use openlinker_plugin.Runtime.Scope.{attachment_request_scope, click_navigation_scope}

abbrev pub max_close_attempts_per_attachment : ℕ
max_close_attempts_per_attachment = 3

abbrev pub max_blocked_clicks_per_navigation : ℕ
max_blocked_clicks_per_navigation = 3

abbrev pub max_blocked_clicks_per_run : ℕ
max_blocked_clicks_per_run = 12

abbrev pub max_viewer_requests_per_epoch : ℕ
max_viewer_requests_per_epoch = 8192

-- The part of `Server` that admission reads and writes.
pub record Server : Type 0 where
  pub seen_scope : List ℕ
  pub seen : List String
  pub action_count : ℕ
  pub viewer_count : ℕ
  pub close_count : ℕ
  pub terminal : Bool
  pub click_run_id : String
  pub blocked_click_run_count : ℕ
  pub navigation_scope : List ℕ
  pub click_engine_instance_id : ℕ
  pub click_navigation_generation : ℕ
  pub blocked_click_navigation_count : ℕ
  pub click_page_state_id : String
  pub last_blocked_target_category : TargetCategory

-- The zero values that `NewServer` leaves.
abbrev pub new_server : Server
new_server = record {
  seen_scope = [];
  seen = [];
  action_count = 0;
  viewer_count = 0;
  close_count = 0;
  terminal = false;
  click_run_id = "";
  blocked_click_run_count = 0;
  navigation_scope = [];
  click_engine_instance_id = 0;
  click_navigation_generation = 0;
  blocked_click_navigation_count = 0;
  click_page_state_id = "";
  last_blocked_target_category = TargetCategory.unset;
}

-- The reset that opens `reserveRequest` and `reserveViewerRequest`.
unfoldable pub enter_scope : Server → Identity → Server
enter_scope s identity =
    if same_codes (attachment_request_scope identity) s.seen_scope then s else record s {
      seen = [];
      seen_scope = attachment_request_scope identity;
      action_count = 0;
      viewer_count = 0;
      close_count = 0;
      terminal = false;
    }

enter_click_run : Server → Identity → Server
enter_click_run s identity = if s.click_run_id =s= identity.run_id then s else record s {
  click_run_id = identity.run_id;
  blocked_click_run_count = 0;
  click_page_state_id = "";
  last_blocked_target_category = TargetCategory.unset;
  navigation_scope = [];
  click_engine_instance_id = 0;
  click_navigation_generation = 0;
  blocked_click_navigation_count = 0;
}

enter_click_navigation : Server → Identity → Server
enter_click_navigation s identity =
    if same_codes s.navigation_scope (click_navigation_scope identity) then s else record s {
      navigation_scope = click_navigation_scope identity;
      click_engine_instance_id = 0;
      click_navigation_generation = 0;
      blocked_click_navigation_count = 0;
    }

-- prepareClickScopeLocked
unfoldable pub prepare_click_scope : Server → Identity → Server
unfolding enter_click_run enter_click_navigation
prepare_click_scope s identity = enter_click_navigation (enter_click_run s identity) identity
