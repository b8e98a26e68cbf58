-- ===== src/Memory/Account/Advance.antt =====
-- memory/db.go, allocatePts followed by logUpdate: what they compute together, and that they keep the
-- database valid.
use teled.Prelude.{
  ◌+◌, ◌<◌, ◌≡◌, refl, [], ◌∷◌, ◌++◌, Option, some, arith, Int64, int0, add_len, get-put_self,
  get-put_ne, put, ℕ_discrete,
}
use teled.Types.{Time, UpdateLogEntry, UpdateType, Extra, ok}
use teled.Memory.State.{Db, MemUser, user_of, updates_of}
use teled.Memory.Messages.{allocate_pts}
use teled.Memory.Account.{Chain-snoc, IsValid, SameElsewhere, SameElsewhere-IsValid}

abbrev pub logged : Int64 → Int64 → UpdateType → Option Int64 → Extra → Time → UpdateLogEntry
logged pts pts_count type global_id extra now = record {
  pts = pts;
  pts_count = pts_count;
  type = type;
  global_id = global_id;
  extra = extra;
  date = now;
}

-- The database after account u, whose row was mu, advanced by n and logged the entry.
abbrev pub advanced : Int64 → MemUser → Int64 → UpdateLogEntry → Db → Db
advanced u mu pts e d = record d {
  users = put ℕ_discrete u (record mu { pts = pts }) d.users;
  updates = put ℕ_discrete u (updates_of d u ++ e ∷ []) d.updates;
}

module _ (u : Int64) (mu : MemUser) (d : Db) (found : user_of d u ≡ some mu) where
  pub allocate_pts-ok :
      (n : _)
      → allocate_pts u n d
        ≡ ok (
          add_len mu.pts n,
          record d { users = put ℕ_discrete u (record mu { pts = add_len mu.pts n }) d.users },
        )
  unfolding allocate_pts
  allocate_pts-ok n = rw (found, allocate_pts)

  module _ (pts : Int64) (e : UpdateLogEntry) where
    pub user_of-advanced : user_of (advanced u mu pts e d) u ≡ some (record mu { pts = pts })
    user_of-advanced = get-put_self ℕ_discrete u _ d.users

    pub updates_of-advanced : updates_of (advanced u mu pts e d) u ≡ updates_of d u ++ e ∷ []
    updates_of-advanced = rw (get-put_self ℕ_discrete u (updates_of d u ++ e ∷ []) d.updates)

    pub advanced-SameElsewhere : SameElsewhere u d (advanced u mu pts e d)
    advanced-SameElsewhere = record {
      users = λ v h. get-put_ne ℕ_discrete u v _ d.users h;
      refs = λ v h. refl;
      updates = λ v h. rw (get-put_ne ℕ_discrete u v _ d.updates h);
      messages = refl;
      msg_seq = refl;
      user_seq = refl;
    }

    -- Advancing an account by the count of the entry that it logs keeps the database valid.
    pub advanced-IsValid :
        mu.pts < pts
        → mu.pts + e.pts_count ≡ pts + int0
        → e.pts ≡ pts
        → IsValid d
        → IsValid (advanced u mu pts e d)
    advanced-IsValid lt step same valid =
        let a = valid.accounts u mu found in
        SameElsewhere-IsValid u d _ mu (record mu { pts = pts }) advanced-SameElsewhere valid found
          user_of-advanced
          (record {
            gapless =
                rw (updates_of-advanced, ← same)
                  (Chain-snoc int0 mu.pts (updates_of d u) e a.gapless (omega arith) (omega arith));
            refs_ok = a.refs_ok;
            distinct = a.distinct;
            started = a.started;
            self_id = a.self_id;
          })
