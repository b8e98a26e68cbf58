-- ===== src/Memory/Reading.antt =====
-- memory/db.go, dialogs and read state: GetDialogs and ReadHistory.
use teled.Prelude.{
  List, [], ◌∷◌, none, some, Bool, false, ◌&&◌, ◌||◌, not, Int64, int0, int, inc, length, map, keep,
  some_in, sort, Map, get, put, values, ltb, ◌==◌, if◌then◌else◌, ℕ_discrete,
}
use teled.Types.{Time, Dialog, ReadResult, UpdateType, encode_read, Result, ok, ◌>>=◌}
use teled.Memory.State.{Db, MemRef, message_of, refs_of}
use teled.Memory.Messages.{allocate_pts, log_update, find, other, cut}

-- The closure peerReadGlobal of GetDialogs.
unfoldable pub peer_read_global : Int64 → Int64 → Db → Bool
unfolding find
peer_read_global peer_id global_id d =
    elim (find (λ pr. pr.global_id == global_id) (values (refs_of d peer_id))) [
      | none ↦ false
      | some pr ↦ not pr.out && not pr.unread
    ]

abbrev pub new_dialog : Int64 → Dialog
new_dialog peer = record {
  peer_user_id = peer;
  top_message_id = int0;
  read_inbox_max_id = int0;
  read_outbox_max_id = int0;
  unread_count = int0;
  draft = none;
}

-- One ref counted into its dialog: the four ifs of the loop of GetDialogs.
unfoldable pub count_ref : Int64 → MemRef → Db → Dialog → Dialog
unfolding peer_read_global
count_ref peer r d dl = record dl {
  top_message_id = if ltb dl.top_message_id r.local_id then r.local_id else dl.top_message_id;
  unread_count = if r.unread && not r.out then inc dl.unread_count else dl.unread_count;
  read_inbox_max_id =
      if not r.out && not r.unread && ltb dl.read_inbox_max_id r.local_id
      then r.local_id
      else dl.read_inbox_max_id;
  read_outbox_max_id =
      if r.out && ltb dl.read_outbox_max_id r.local_id && peer_read_global peer r.global_id d
      then r.local_id
      else dl.read_outbox_max_id;
}

-- The loop of GetDialogs over the caller's refs, with the map byPeer.
unfoldable pub by_peer : Int64 → List MemRef → Db → Map Int64 Dialog → Map Int64 Dialog
unfolding count_ref other
by_peer self [] d dialogs = dialogs
by_peer self (r ∷ rs) d dialogs = elim (message_of d r.global_id) [
  | none ↦ by_peer self rs d dialogs
  | some m ↦ by_peer self rs d (
      if m.deleted
      then dialogs
      else (let peer = other self m in
          let dl : Dialog = elim (get ℕ_discrete peer dialogs) [
            | none ↦ new_dialog peer
            | some dl ↦ dl
          ] in
          put ℕ_discrete peer (count_ref peer r d dl) dialogs))
]

abbrev pub more_recent : Dialog → Dialog → Bool
more_recent a b = ltb b.top_message_id a.top_message_id

unfoldable pub get_dialogs : Int64 → Int64 → Db → List Dialog
unfolding by_peer
get_dialogs self limit d =
    cut limit (sort more_recent (values (by_peer self (values (refs_of d self)) d [])))

-- Whether the first loop of ReadHistory marks the ref.
unfoldable pub readable : Int64 → Int64 → Int64 → Db → MemRef → Bool
unfolding other
readable self peer max_id d r =
    if r.out || ltb max_id r.local_id
    then false
    else elim (message_of d r.global_id) [ none ↦ false | some m ↦ other self m == peer ]

-- r.unread = false.
abbrev pub mark_read : (MemRef → Bool) → MemRef → MemRef
mark_read test r = if test r then record r { unread = false } else r

unfoldable pub mark_each : (MemRef → Bool) → Map Int64 MemRef → Map Int64 MemRef
mark_each test [] = []
mark_each test ((k, r) ∷ m) = (k, mark_read test r) ∷ mark_each test m

-- The first loop of ReadHistory, on the stored refs.
unfoldable pub mark_refs : Int64 → (MemRef → Bool) → Db → Db
unfolding mark_each
mark_refs self test d = elim (get ℕ_discrete self d.refs) [
  | none ↦ d
  | some m ↦ record d { refs = put ℕ_discrete self (mark_each test m) d.refs }
]

unfoldable pub max_outgoing : (Int64 → Bool) → List MemRef → Int64 → Int64
max_outgoing in_read_set [] acc = acc
max_outgoing in_read_set (pr ∷ prs) acc =
    max_outgoing in_read_set prs
      (if pr.out && in_read_set pr.global_id && ltb acc pr.local_id then pr.local_id else acc)

-- Whether the third loop of ReadHistory counts the ref.
unfoldable pub counts_unread : Int64 → Int64 → Db → MemRef → Bool
unfolding other
counts_unread self peer d r =
    if r.out || not r.unread
    then false
    else elim (message_of d r.global_id) [ none ↦ false | some m ↦ other self m == peer ]

-- The two allocations that end ReadHistory.
unfoldable pub ack_peer : Int64 → Int64 → Time → ReadResult → Db → Result (ReadResult × Db)
unfolding allocate_pts log_update
ack_peer self peer now res d =
    if not (ltb int0 res.outbox_max_id && not (peer == self)) then ok (res, d) else do
      (pts, d') ← allocate_pts peer 1 d
      ok (
        record res { outbox_pts = pts },
        log_update peer pts (int 1) UpdateType.read_outbox none (encode_read self res.outbox_max_id)
            now d',
      )

unfoldable pub read_history : Int64 → Int64 → Int64 → Time → Db → Result (ReadResult × Db)
unfolding readable mark_refs max_outgoing counts_unread allocate_pts log_update ack_peer
read_history self peer max_id now d = do
  let test = readable self peer max_id d
  let read_set = map (λ r. r.global_id) (keep test (values (refs_of d self)))
  let d₁ = mark_refs self test d
  let outbox_max_id =
      max_outgoing (λ g. some_in (λ g'. g' == g) read_set) (values (refs_of d₁ peer)) int0
  let unread_count = int (length (keep (counts_unread self peer d₁) (values (refs_of d₁ self))))
  (pts, d₂) ← allocate_pts self 1 d₁
  ack_peer self peer now
      (record {
        inbox_pts = pts;
        unread_count = unread_count;
        outbox_pts = int0;
        outbox_max_id = outbox_max_id;
      })
      (log_update self pts (int 1) UpdateType.read_inbox none (encode_read peer max_id) now d₂)
