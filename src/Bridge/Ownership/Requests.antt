-- ===== src/Bridge/Ownership/Requests.antt =====
-- pkg/bridge/ownership.go: which session a paused backend request belongs to.
use foxbridge.Common.{String, Bool, false, ◌||◌, none, some, string_key, ◌==◌, if◌then◌else◌}
use foxbridge.Dict.{get, put, delete, delete_where}
use foxbridge.Bridge.Ownership.{Registry}

unfoldable pub set_request_owner : Registry → String → String → Registry
set_request_owner r request_id session_id =
    if request_id == "" || session_id == ""
    then r
    else record r { request_owners = put r.request_owners request_id session_id }

unfoldable pub request_owned : Registry → String → String → Bool
request_owned r session_id request_id =
    if request_id == "" || session_id == ""
    then false
    else elim (get r.request_owners request_id) [ none ↦ false | some owner ↦ owner == session_id ]

unfoldable pub clear_request : Registry → String → Registry
clear_request r request_id =
    if request_id == "" then r else record r { request_owners = delete r.request_owners request_id }

unfoldable pub clear_requests : Registry → String → Registry
clear_requests r session_id = record r {
  request_owners = delete_where (λ id owner. owner == session_id) r.request_owners;
}
