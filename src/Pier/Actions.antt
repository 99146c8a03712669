-- ===== src/Pier/Actions.antt =====
-- SaucepanServer/task-server/shared/wire/piercode.go and shared/pierjob/pierjob.go: the actions
-- that sandboxed researcher code may take, and the grants that a campaign holds.
use saucepan.Common.{
  ℕ, String, Bool, true, false, Option, none, some, List, [], ◌∷◌, ◌||◌, not, ◌==◌, string_eq,
  if◌then◌else◌, any, Mapping, lookup,
}

-- json.RawMessage and []byte
abbrev pub Bytes : Type 0
Bytes = List ℕ

abbrev pub action_read_frame : String
action_read_frame = "read_frame"

abbrev pub action_board_post : String
action_board_post = "board_post"

abbrev pub action_board_read : String
action_board_read = "board_read"

abbrev pub action_inbox_alert : String
action_inbox_alert = "inbox_alert"

abbrev pub action_urgency_flag : String
action_urgency_flag = "urgency_flag"

abbrev pub action_list_piers : String
action_list_piers = "list_piers"

abbrev pub action_request_time : String
action_request_time = "request_time"

abbrev pub action_next_capture : String
action_next_capture = "next_capture"

-- The runner's own records.
abbrev pub action_state : String
action_state = "state"

abbrev pub action_done : String
action_done = "done"

abbrev pub action_error : String
action_error = "error"

abbrev pub pier_code_actions : List String
pier_code_actions =
    action_read_frame ∷ action_board_post ∷ action_board_read ∷ action_inbox_alert
    ∷ action_urgency_flag ∷ action_list_piers ∷ action_request_time ∷ action_next_capture ∷ []

unfoldable pub is_pier_code_action : String → Bool
is_pier_code_action name = any (λ a. a == name) pier_code_actions

abbrev pub default_pier_code_grants : Mapping Bool
default_pier_code_grants =
    (action_read_frame, true) ∷ (action_board_post, true) ∷ (action_board_read, true) ∷ []

-- m[key] of a map to bool: false for a missing key.
abbrev pub is_on : Option Bool → Bool
is_on none = false
is_on (some b) = b

unfoldable pub grant_allows : Mapping Bool → String → Bool
unfolding is_pier_code_action lookup
grant_allows grants action =
    if not (is_pier_code_action action) then false else is_on (lookup action grants)

pub record Record : Type 0 where
  pub action : String
  pub payload : Bytes
  pub ok : Bool
  pub msg : String

pub data GrantRefusal : Type 0 where
  not_in_menu not_granted : GrantRefusal

abbrev pub is_terminal : String → Bool
is_terminal action = action == action_done || action == action_error

-- The error of CheckRecordGrant, `none` where it passes.
unfoldable pub check_record_grant : Record → Mapping Bool → Option GrantRefusal
unfolding is_pier_code_action grant_allows
check_record_grant rec grants =
    if rec.action == action_state || is_terminal rec.action
    then none
    else if not (is_pier_code_action rec.action)
    then some not_in_menu
    else if not (grant_allows grants rec.action)
    then some not_granted
    else none
