-- ===== src/Rpc/Updates.antt =====
-- internal/rpc/updates.go: the update state and the difference. The conversion of a stored message to its
-- wire form is not modelled: an answer carries the message. The users of an answer are their rows
-- and whether each is the caller. The clock is an argument.
use teled.Prelude.{
  List, [], ◌∷◌, ◌++◌, Option, some, none, Bool, Int64, int, Map, put, map, ◌==◌, ℕ_discrete,
}
use teled.Types.{
  Time, User, Message, State, UpdateLogEntry, UpdateType, Result, decode_deleted, decode_read, ok,
  err, panic,
}
use teled.Memory.State.{Db, KeyId}
use teled.Memory.Messages.{message_by_global}
use teled.Memory.Updates.{get_state, get_difference}
use teled.Memory.Users.{users_by_ids}
use teled.Rpc.Reply.{Rpc, reply, fail, crash, ◌>>=◌, internal}
use teled.Rpc.Caller.{require_caller}

abbrev pub difference_limit : Int64
difference_limit = int 1000

-- A storage call that may fail and writes nothing.
abbrev pub ask : {A : Type 0} → (Db → Result A) → Rpc A
ask f d = elim (f d) [ ok a ↦ (reply a, d) | err e ↦ (fail internal, d) | panic ↦ (crash, d) ]

unfoldable pub updates_get_state : Option KeyId → Time → Rpc State
updates_get_state key now = do caller ← require_caller key now; ask (get_state caller.id now)

-- tg.UpdateEditMessage, UpdateDeleteMessages, UpdateReadHistoryInbox and UpdateReadHistoryOutbox; the
-- last two numbers are pts and pts_count.
pub data OtherUpdate : Type 0 where
  update_edit_message : Message → Int64 → Int64 → OtherUpdate
  update_delete_messages : List Int64 → Int64 → Int64 → OtherUpdate
  update_read_history_inbox : Int64 → Int64 → Int64 → Int64 → OtherUpdate
  update_read_history_outbox : Int64 → Int64 → Int64 → Int64 → OtherUpdate

-- The variables of the loop over the entries.
pub record Collected : Type 0 where
  pub new_messages : List Message
  pub other_updates : List OtherUpdate
  pub user_ids : Map Int64 (Unit {0})

-- messageByGlobal.
unfoldable pub entry_message : Int64 → UpdateLogEntry → Db → Option Message
entry_message self e d = elim e.global_id [ none ↦ none | some id ↦ message_by_global self id d ]

abbrev pub with_parties : Message → Map Int64 (Unit {0}) → Map Int64 (Unit {0})
with_parties msg ids = put ℕ_discrete msg.peer_user_id tt (put ℕ_discrete msg.from_user_id tt ids)

abbrev pub add_other : OtherUpdate → Map Int64 (Unit {0}) → Collected → Collected
add_other u ids c = record c { other_updates = c.other_updates ++ u ∷ []; user_ids = ids }

-- The cases of the loop.
unfoldable pub add_new : Option Message → Collected → Collected
add_new none c = c
add_new (some msg) c = record c {
  new_messages = c.new_messages ++ msg ∷ [];
  user_ids = with_parties msg c.user_ids;
}

unfoldable pub add_edit : UpdateLogEntry → Option Message → Collected → Collected
add_edit e none c = c
add_edit e (some msg) c =
    add_other (update_edit_message msg e.pts e.pts_count) (with_parties msg c.user_ids) c

unfoldable pub add_entry : Int64 → Db → UpdateLogEntry → Collected → Collected
unfolding entry_message add_new add_edit decode_deleted decode_read
add_entry self d e c = elim e.type [
  | UpdateType.new ↦ add_new (entry_message self e d) c
  | UpdateType.edit ↦ add_edit e (entry_message self e d) c
  | UpdateType.delete ↦
      add_other (update_delete_messages (decode_deleted e.extra) e.pts e.pts_count) c.user_ids c
  | UpdateType.read_inbox ↦
      let (peer, max_id) = decode_read e.extra in
      add_other (update_read_history_inbox peer max_id e.pts e.pts_count)
        (put ℕ_discrete peer tt c.user_ids) c
  | UpdateType.read_outbox ↦
      let (peer, max_id) = decode_read e.extra in
      add_other (update_read_history_outbox peer max_id e.pts e.pts_count)
        (put ℕ_discrete peer tt c.user_ids) c
]

unfoldable pub add_entries : Int64 → Db → List UpdateLogEntry → Collected → Collected
unfolding add_entry
add_entries self d [] c = c
add_entries self d (e ∷ es) c = add_entries self d es (add_entry self d e c)

-- usersByIDs: the rows, and which is the caller's.
unfoldable pub marked_users : Int64 → Map Int64 (Unit {0}) → Db → List (User × Bool)
marked_users self ids d = map (λ u. (u, u.id == self)) (users_by_ids (map (λ e. e.0) ids) d)

-- tg.UpdatesDifferenceEmpty and tg.UpdatesDifference with the pts of its state.
pub data Difference : Type 0 where
  difference_empty : Difference
  difference : List Message → List OtherUpdate → List (User × Bool) → Int64 → Difference

unfoldable pub difference_of : Int64 → List UpdateLogEntry → Int64 → Db → Difference
unfolding add_entries marked_users
difference_of self [] current_pts d = difference_empty
difference_of self (e ∷ es) current_pts d =
    let start : Collected = record {
      new_messages = [];
      other_updates = [];
      user_ids = put ℕ_discrete self tt [];
    } in
    let c = add_entries self d (e ∷ es) start in
    difference c.new_messages c.other_updates (marked_users self c.user_ids d) current_pts

unfoldable pub updates_get_difference : Option KeyId → Int64 → Time → Rpc Difference
unfolding difference_of
updates_get_difference key pts now = do
  caller ← require_caller key now
  (entries, current_pts) ← ask (get_difference caller.id pts difference_limit)
  λ d. (reply (difference_of caller.id entries current_pts d), d)
