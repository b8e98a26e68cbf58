-- ===== src/Postgres/Messages.antt =====
-- internal/db/message.go: allocation, the update log and SendMessage.
use teled.Prelude.{
  ℕ, ◌+◌, Option, none, some, Bool, true, false, ◌&&◌, ◌||◌, not, Str, Int64, int0, int, inc,
  add_len, word, some_in, ltb, leb, ◌==◌, if◌then◌else◌,
}
use teled.Types.{Time, SentMessage, File, UpdateType, Extra, no_extra}
use teled.Memory.Messages.{find, sent_copy}
use teled.Postgres.Tables.{UserRow, MessageRow, RefRow, LogRow, Tables}
use teled.Postgres.Sql.{
  duplicate_key, missing_parent, out_of_range, done, fault, Sql, give, scan, write, raise_if, check,
  ◌>>=◌, ◌>>◌, reach, transaction, update, add_row, max_int,
}

-- The rows of a primary key.
unfoldable pub user_row : Int64 → Tables → Option UserRow
unfolding find
user_row id t = find (λ u. u.id == id) t.users

unfoldable pub message_row : Int64 → Tables → Option MessageRow
unfolding find
message_row id t = find (λ m. m.global_id == id) t.messages

unfoldable pub file_row : Int64 → Tables → Option File
unfolding find
file_row id t = find (λ f. f.id == id) t.files

-- Whether a foreign key finds its row.
abbrev pub is_some {ℓ} : {A : Type ℓ} → Option A → Bool
is_some none = false
is_some (some a) = true

abbrev pub has_user : Int64 → Tables → Bool
has_user id t = is_some (user_row id t)

-- The row of users with both counters advanced.
abbrev pub bump : UserRow → UserRow
bump u = record u { last_message_id = inc u.last_message_id; pts = inc u.pts }

abbrev pub update_user : Int64 → (UserRow → UserRow) → Tables → Tables
update_user id f t = record t { users = update (λ u. u.id == id) f t.users }

unfoldable pub allocate : Int64 → Sql (Int64 × Int64)
unfolding reach
allocate user_id = do
  reach
  u ← scan (user_row user_id)
  raise_if ((u.last_message_id == max_int) || (u.pts == max_int)) out_of_range
  write (update_user user_id bump)
  give (inc u.last_message_id, inc u.pts)

abbrev pub advance : ℕ → UserRow → UserRow
advance count u = record u { pts = add_len u.pts count }

unfoldable pub allocate_pts : Int64 → ℕ → Sql Int64
unfolding reach
allocate_pts user_id count = do
  reach
  u ← scan (user_row user_id)
  raise_if (leb word (u.pts + count)) out_of_range
  write (update_user user_id (advance count))
  give (add_len u.pts count)

-- The primary key of updates_log.
abbrev pub logged_at : Int64 → Int64 → LogRow → Bool
logged_at user_id pts e = (e.user_id == user_id) && (e.pts == pts)

-- pts_count is an INT.
unfoldable pub log_update :
    Int64 → Int64 → Int64 → UpdateType → Option Int64 → Extra → Time → Sql (Unit {0})
unfolding reach
log_update user_id pts pts_count type global_id extra now = do
  reach
  raise_if (ltb (int 2_147_483_647) pts_count) out_of_range
  check duplicate_key (λ t. not (some_in (logged_at user_id pts) t.updates_log))
  check missing_parent (has_user user_id)
  write (λ t. record t {
    updates_log =
        add_row
          (record {
            user_id = user_id;
            pts = pts;
            pts_count = pts_count;
            type = type;
            global_id = global_id;
            extra = extra;
            date = now;
          })
          t.updates_log;
  })

-- The PRIMARY KEY (user_id, message_id) and the UNIQUE (user_id, global_id) of message_refs.
abbrev pub same_ref : RefRow → RefRow → Bool
same_ref r q =
    (q.user_id == r.user_id) && ((q.message_id == r.message_id) || (q.global_id == r.global_id))

unfoldable pub insert_ref : Int64 → Int64 → Int64 → Bool → Bool → Sql (Unit {0})
unfolding reach
insert_ref user_id local_id global_id out unread =
    let r : RefRow = record {
      user_id = user_id;
      message_id = local_id;
      global_id = global_id;
      out = out;
      unread = unread;
    } in
    do
      reach
      check duplicate_key (λ t. not (some_in (same_ref r) t.message_refs))
      check missing_parent (λ t. has_user user_id t && is_some (message_row global_id t))
      write (λ t. record t { message_refs = add_row r t.message_refs })

-- nextval of the sequence of messages.global_id.
unfoldable pub next_message : Sql Int64
next_message s =
    let last = s.sequences.messages in
    if last == max_int
    then (fault out_of_range, s)
    else (done (inc last), record s { sequences = record s.sequences { messages = inc last } })

abbrev pub new_message : Int64 → Int64 → Int64 → Str → Int64 → Option Int64 → Time → MessageRow
new_message global_id from_id peer_id text random_id media now = record {
  global_id = global_id;
  from_user_id = from_id;
  peer_user_id = peer_id;
  text = text;
  date = now;
  edit_date = none;
  random_id = random_id;
  deleted = false;
  media_file_id = media;
}

-- A nullable foreign key to files.
abbrev pub has_media : Option Int64 → Tables → Bool
has_media none t = true
has_media (some id) t = is_some (file_row id t)

-- The first statement of SendMessage, which returns the global id.
unfoldable pub insert_message : Int64 → Int64 → Str → Int64 → Option Int64 → Time → Sql Int64
unfolding reach
insert_message from_id peer_id text random_id media now = do
  reach
  global_id ← next_message
  check duplicate_key (λ t. not (is_some (message_row global_id t)))
  check missing_parent (λ t. has_user from_id t && has_user peer_id t && has_media media t)
  write (λ t. record t {
    messages = add_row (new_message global_id from_id peer_id text random_id media now) t.messages;
  })
  give global_id

-- One participant's share of SendMessage.
unfoldable pub store_copy : Int64 → Int64 → Bool → Time → Sql (Int64 × Int64)
unfolding allocate insert_ref log_update
store_copy user_id global_id out now = do
  (local_id, pts) ← allocate user_id
  insert_ref user_id local_id global_id out (not out)
  log_update user_id pts (int 1) UpdateType.new (some global_id) no_extra now
  give (local_id, pts)

-- The recipient's share, which a self-chat does not have.
unfoldable pub store_peer_copy : SentMessage → Int64 → Time → Sql SentMessage
unfolding store_copy
store_peer_copy sent peer_id now = if sent.self_chat then give sent else do
  (local_id, pts) ← store_copy peer_id sent.global_id false now
  give (record sent { recipient_local_id = local_id; recipient_pts = pts })

-- The media column: NULL for 0.
abbrev pub nullable : Int64 → Option Int64
nullable id = if id == int0 then none else some id

-- The statements of SendMessage between Begin and Commit.
unfoldable pub send_statements : Int64 → Int64 → Str → Int64 → Int64 → Time → Sql SentMessage
unfolding insert_message store_copy store_peer_copy
send_statements from_id peer_id text random_id media_file_id now = do
  global_id ← insert_message from_id peer_id text random_id (nullable media_file_id) now
  (local_id, pts) ← store_copy from_id global_id true now
  store_peer_copy (sent_copy from_id peer_id global_id local_id pts now) peer_id now

unfoldable pub send_message : Int64 → Int64 → Str → Int64 → Int64 → Time → Sql SentMessage
unfolding transaction send_statements
send_message from_id peer_id text random_id media_file_id now =
    transaction (send_statements from_id peer_id text random_id media_file_id now)
