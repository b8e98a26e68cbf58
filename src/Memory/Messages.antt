-- ===== src/Memory/Messages.antt =====
-- memory/db.go, the messages: allocation of local ids and pts, the update log, SendMessage, GetHistory
-- and MessageByGlobal.
-- `panic` is the nil dereference of d.users[id] for an account that is not there.

use teled.Prelude.{
  ℕ, List, [], ◌∷◌, ◌++◌, Option, none, some, Bool, true, false, ◌&&◌, not, Str, Int64, int0, int,
  inc, add_len, index, length, take, sort, get, put, values, ltb, leb, ◌==◌, if◌then◌else◌,
  ℕ_discrete,
}
use teled.Types.{Time, Message, SentMessage, UpdateType, Extra, no_extra, Result, ok, panic, ◌>>=◌}
use teled.Memory.State.{Db, MemUser, MemMessage, MemRef, user_of, message_of, refs_of, updates_of}

-- mu.lastMessageID++ and mu.pts++.
abbrev pub bump : MemUser → MemUser
bump mu = record mu { last_message_id = inc mu.last_message_id; pts = inc mu.pts }

-- The results are the new local id and the new pts.
unfoldable pub allocate : Int64 → Db → Result ((Int64 × Int64) × Db)
allocate user_id d = elim (user_of d user_id) [
  | none ↦ panic
  | some mu ↦ ok (
    (inc mu.last_message_id, inc mu.pts),
    record d { users = put ℕ_discrete user_id (bump mu) d.users },
  )
]

unfoldable pub allocate_pts : Int64 → ℕ → Db → Result (Int64 × Db)
allocate_pts user_id count d = elim (user_of d user_id) [
  | none ↦ panic
  | some mu ↦ ok (
    add_len mu.pts count,
    record d { users = put ℕ_discrete user_id (record mu { pts = add_len mu.pts count }) d.users },
  )
]

unfoldable pub put_ref : Int64 → MemRef → Db → Db
put_ref user_id r d = record d {
  refs = put ℕ_discrete user_id (put ℕ_discrete r.local_id r (refs_of d user_id)) d.refs;
}

unfoldable pub log_update :
    Int64 → Int64 → Int64 → UpdateType → Option Int64 → Extra → Time → Db → Db
log_update user_id pts pts_count type global_id extra now d = record d {
  updates =
      put ℕ_discrete user_id
        (updates_of d user_id
          ++ record {
            pts = pts;
            pts_count = pts_count;
            type = type;
            global_id = global_id;
            extra = extra;
            date = now;
          }
            ∷ [])
        d.updates;
}

-- The first element that passes a test: a `for` loop that returns it.
unfoldable pub find {ℓ} : {A : Type ℓ} → (A → Bool) → List A → Option A
find p [] = none
find p (x ∷ xs) = let rest = find p xs in if p x then some x else rest

unfoldable pub ref_by_global : Int64 → Int64 → Db → Option MemRef
unfolding find
ref_by_global user_id global_id d =
    find (λ r. r.global_id == global_id) (values (refs_of d user_id))

abbrev pub new_message : Int64 → Int64 → Int64 → Str → Int64 → Int64 → Time → MemMessage
new_message global_id from peer text random_id media_file_id now = record {
  global_id = global_id;
  from = from;
  peer = peer;
  text = text;
  date = now;
  edit_date = 0;
  random_id = random_id;
  media_file_id = media_file_id;
  deleted = false;
}

-- One participant's share of SendMessage: allocate, store the ref, log the update.
unfoldable pub store_copy : Int64 → Int64 → Bool → Time → Db → Result ((Int64 × Int64) × Db)
unfolding allocate put_ref log_update
store_copy user_id global_id out now d = do
  ((local_id, pts), d₁) ← allocate user_id d
  let d₂ =
      put_ref user_id
        (record { local_id = local_id; global_id = global_id; out = out; unread = not out }) d₁
  ok (
    (local_id, pts),
    log_update user_id pts (int 1) UpdateType.new (some global_id) no_extra now d₂,
  )

-- The canonical message of SendMessage, and its new global id.
abbrev pub store_message : Int64 → Int64 → Str → Int64 → Int64 → Time → Db → Db
store_message from_id peer_id text random_id media_file_id now d =
    let global_id = inc d.msg_seq in
    record d {
      msg_seq = global_id;
      messages =
          put ℕ_discrete global_id
            (new_message global_id from_id peer_id text random_id media_file_id now) d.messages;
    }

abbrev pub sent_copy : Int64 → Int64 → Int64 → Int64 → Int64 → Time → SentMessage
sent_copy from_id peer_id global_id local_id pts now = record {
  global_id = global_id;
  date = now;
  sender_local_id = local_id;
  sender_pts = pts;
  recipient_local_id = int0;
  recipient_pts = int0;
  self_chat = from_id == peer_id;
}

-- The recipient's share, which a self-chat does not have.
unfoldable pub store_peer_copy : SentMessage → Int64 → Time → Db → Result (SentMessage × Db)
unfolding store_copy
store_peer_copy sent peer_id now d = if sent.self_chat then ok (sent, d) else do
  ((local_id, pts), d') ← store_copy peer_id sent.global_id false now d
  ok (record sent { recipient_local_id = local_id; recipient_pts = pts }, d')

unfoldable pub send_message :
    Int64 → Int64 → Str → Int64 → Int64 → Time → Db → Result (SentMessage × Db)
unfolding store_copy store_peer_copy
send_message from_id peer_id text random_id media_file_id now d = do
  let global_id = inc d.msg_seq
  let d₀ = store_message from_id peer_id text random_id media_file_id now d
  ((local_id, pts), d₁) ← store_copy from_id global_id true now d₀
  store_peer_copy (sent_copy from_id peer_id global_id local_id pts now) peer_id now d₁

unfoldable pub other : Int64 → MemMessage → Int64
other self m = if m.from == self then m.peer else m.from

-- The viewer-relative message.
unfoldable pub message : Int64 → MemRef → MemMessage → Db → Message
unfolding other
message self r m d = record {
  global_id = m.global_id;
  local_id = r.local_id;
  from_user_id = m.from;
  peer_user_id = other self m;
  out = r.out;
  text = m.text;
  date = m.date;
  edit_date = m.edit_date;
  random_id = m.random_id;
  media = if m.media_file_id == int0 then none else get ℕ_discrete m.media_file_id d.files;
}

-- The messages of the refs whose canonical message is there and passes the test, in map order.
unfoldable pub collect : Int64 → (MemRef → MemMessage → Bool) → List MemRef → Db → List Message
unfolding message
collect self wanted [] d = []
collect self wanted (r ∷ rs) d = elim (message_of d r.global_id) [
  | none ↦ collect self wanted rs d
  | some m ↦
      let rest = collect self wanted rs d in if wanted r m then message self r m d ∷ rest else rest
]

abbrev pub newer : Message → Message → Bool
newer a b = ltb b.local_id a.local_id

-- A test of both loops: the message stands and belongs to the conversation with peer.
abbrev pub in_conversation : Int64 → Int64 → MemMessage → Bool
in_conversation self peer m = not m.deleted && (other self m == peer)

-- x[:limit] when limit is positive and x is longer.
abbrev pub cut {ℓ} : {A : Type ℓ} → Int64 → List A → List A
cut limit xs = if ltb int0 limit && ltb limit (int (length xs)) then take (index limit) xs else xs

-- The loop's test in GetHistory.
abbrev pub history_wanted : Int64 → Int64 → Int64 → MemRef → MemMessage → Bool
history_wanted self peer offset_id r m =
    in_conversation self peer m && not (ltb int0 offset_id && leb offset_id r.local_id)

unfoldable pub get_history : Int64 → Int64 → Int64 → Int64 → Db → List Message
unfolding collect other
get_history self peer offset_id limit d =
    cut limit
      (sort newer (collect self (history_wanted self peer offset_id) (values (refs_of d self)) d))

unfoldable pub message_by_global : Int64 → Int64 → Db → Option Message
unfolding ref_by_global message
message_by_global self global_id d = elim (ref_by_global self global_id d) [
  | none ↦ none
  | some r ↦ elim (message_of d global_id) [ none ↦ none | some m ↦ some (message self r m d) ]
]
