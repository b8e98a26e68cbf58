-- ===== src/Postgres/Running.antt =====
-- internal/db/message.go: what the statements of SendMessage leave when each of them comes through.
use teled.Prelude.{
  List, ◌+◌, ◌<◌, ◌≡◌, refl, [], some, Bool, false, not, arith, Int64, int, inc, word, some_in,
  ◌==◌, ==_false,
}
use teled.Types.{Time, UpdateType, no_extra}
use teled.Postgres.Tables.{UserRow, MessageRow, RefRow, LogRow, Tables, Sequences}
use teled.Postgres.Sql.{done, Store, update, add_row, max_int}
use teled.Postgres.Messages.{
  user_row, message_row, bump, update_user, allocate, logged_at, log_update, same_ref, insert_ref,
  store_copy,
}
use teled.Postgres.Selecting.{find-update}

-- A database of which every coming statement comes through.
abbrev pub online : Tables → Sequences → Store
online t q = record { tables = t; sequences = q; outages = [] }

-- The counters of a row can be advanced.
abbrev pub HasRoom : UserRow → Type 0
HasRoom u = (u.last_message_id + 1 < word) × (u.pts + 1 < word)

abbrev pub log_row : Int64 → Int64 → UpdateType → Int64 → Time → LogRow
log_row user_id pts type global_id now = record {
  user_id = user_id;
  pts = pts;
  pts_count = int 1;
  type = type;
  global_id = some global_id;
  extra = no_extra;
  date = now;
}

abbrev pub ref_row_of : UserRow → Int64 → Int64 → Bool → RefRow
ref_row_of u user_id global_id out = record {
  user_id = user_id;
  message_id = inc u.last_message_id;
  global_id = global_id;
  out = out;
  unread = not out;
}

-- The tables after one participant's share of SendMessage.
abbrev pub copied : Int64 → Int64 → Bool → Time → UserRow → Tables → Tables
copied user_id global_id out now u t = record (update_user user_id bump t) {
  message_refs = add_row (ref_row_of u user_id global_id out) t.message_refs;
  updates_log = add_row (log_row user_id (inc u.pts) UpdateType.new global_id now) t.updates_log;
}

pub user_row-update_user :
    (id : Int64) (f : UserRow → UserRow) (u : UserRow) (t : Tables)
    → ((v : UserRow) → (f v).id ≡ v.id)
    → user_row id t ≡ some u
    → user_row id (update_user id f t) ≡ some (f u)
unfolding user_row
user_row-update_user id f u t same found =
    find-update (λ v. v.id == id) f u t.users (λ v. rw (same v) refl) found

module _ (user_id global_id : Int64) (out : Bool) (now : Time) (u : UserRow) (t : Tables)
    (q : Sequences) (found : user_row user_id t ≡ some u) (room : HasRoom u) where
  allocate_runs :
      allocate user_id (online t q)
      ≡ (done (inc u.last_message_id, inc u.pts), online (update_user user_id bump t) q)
  unfolding allocate user_row update
  allocate_runs =
      rw
        (
          found,
          ==_false u.last_message_id max_int (omega arith),
          ==_false u.pts max_int (omega arith),
          allocate,
        )
        refl

  module _
      (fresh_ref : some_in (same_ref (ref_row_of u user_id global_id out)) t.message_refs ≡ false)
      (m : MessageRow) (stored : message_row global_id t ≡ some m) where
    insert_ref_runs :
        insert_ref user_id
          (inc u.last_message_id)
          global_id
          out
          (not out)
          (online (update_user user_id bump t) q)
        ≡ (
          done tt,
          online
              (record (update_user user_id bump t) {
                message_refs = add_row (ref_row_of u user_id global_id out) t.message_refs;
              })
              q,
        )
    unfolding insert_ref message_row
    insert_ref_runs =
        let there = user_row-update_user user_id bump u t (λ v. refl) found in
        ground (arith, fresh_ref, there, stored)

    log_update_runs :
        some_in (logged_at user_id (inc u.pts)) t.updates_log ≡ false
        → (rs : List RefRow)
        → log_update user_id
            (inc u.pts)
            (int 1)
            UpdateType.new
            (some global_id)
            no_extra
            now
            (online (record (update_user user_id bump t) { message_refs = rs }) q)
          ≡ (
            done tt,
            online
                (record (update_user user_id bump t) {
                  message_refs = rs;
                  updates_log =
                      add_row
                        (log_row user_id (inc u.pts) UpdateType.new global_id now)
                        t.updates_log;
                })
                q,
          )
    unfolding log_update user_row
    log_update_runs fresh rs =
        let there = user_row-update_user user_id bump u t (λ v. refl) found in
        ground (arith, fresh, there)

    pub store_copy_runs :
        some_in (logged_at user_id (inc u.pts)) t.updates_log ≡ false
        → store_copy user_id global_id out now (online t q) ≡ (
          done (inc u.last_message_id, inc u.pts),
          online (copied user_id global_id out now u t) q,
        )
    unfolding store_copy
    store_copy_runs fresh = ground (
      arith,
      allocate_runs,
      insert_ref_runs,
      log_update_runs fresh (add_row (ref_row_of u user_id global_id out) t.message_refs),
    )
