-- ===== src/Memory/Account/Copy.antt =====
-- memory/db.go, SendMessage for one participant: what store_copy computes, and that it keeps the
-- database valid.
use teled.Prelude.{
  ◌+◌, ◌<◌, ◌≤◌, ◌≡◌, ◌⊎◌, refl, [], ◌∷◌, ◌++◌, some, Bool, not, arith, Int64, int0, int, inc, word,
  All-map, All-put, put-Distinct, get-put_self, get-put_ne, put, ℕ_discrete, ◌==◌,
}
use teled.Types.{Time, UpdateLogEntry, UpdateType, no_extra, ok}
use teled.Memory.State.{Db, MemUser, MemMessage, MemRef, user_of, message_of, refs_of, updates_of}
use teled.Memory.Messages.{bump, allocate, store_copy}
use teled.Memory.Account.Extend.{Extends-refl, IsRef-extend}
use teled.Memory.Account.{
  Chain-snoc, IsRef, IsAccount, IsValid, SameElsewhere, SameElsewhere-IsValid,
}

-- The log entry of one advance by one.
abbrev pub entry : Int64 → UpdateType → Int64 → Time → UpdateLogEntry
entry pts type global_id now = record {
  pts = pts;
  pts_count = int 1;
  type = type;
  global_id = some global_id;
  extra = no_extra;
  date = now;
}

abbrev pub new_ref : MemUser → Int64 → Bool → MemRef
new_ref mu global_id out = record {
  local_id = inc mu.last_message_id;
  global_id = global_id;
  out = out;
  unread = not out;
}

-- The account after store_copy.
abbrev pub copied : Int64 → Int64 → Bool → Time → MemUser → Db → Db
copied u global_id out now mu d = record d {
  users = put ℕ_discrete u (bump mu) d.users;
  refs =
      put ℕ_discrete u
        (put ℕ_discrete (inc mu.last_message_id) (new_ref mu global_id out) (refs_of d u)) d.refs;
  updates =
      put ℕ_discrete u (updates_of d u ++ entry (inc mu.pts) UpdateType.new global_id now ∷ [])
        d.updates;
}

module _ (u global_id : Int64) (out : Bool) (now : Time) (mu : MemUser) (d : Db)
    (found : user_of d u ≡ some mu) where
  pub store_copy-copied :
      store_copy u global_id out now d
      ≡ ok ((inc mu.last_message_id, inc mu.pts), copied u global_id out now mu d)
  unfolding store_copy
  store_copy-copied = rw (found, allocate)

  pub user_of-copied : user_of (copied u global_id out now mu d) u ≡ some (bump mu)
  user_of-copied = get-put_self ℕ_discrete u (bump mu) d.users

  pub copied-SameElsewhere : SameElsewhere u d (copied u global_id out now mu d)
  copied-SameElsewhere = record {
    users = λ v h. get-put_ne ℕ_discrete u v _ d.users h;
    refs = λ v h. rw (get-put_ne ℕ_discrete u v _ d.refs h);
    updates = λ v h. rw (get-put_ne ℕ_discrete u v _ d.updates h);
    messages = refl;
    msg_seq = refl;
    user_seq = refl;
  }

  module _ (room : mu.last_message_id + 1 < word) (room' : mu.pts + 1 < word) (m : MemMessage)
      (stored : message_of d global_id ≡ some m) (named : m.global_id ≡ global_id)
      (known : global_id ≤ d.msg_seq) (side : out ≡ (m.from == u))
      (party : (m.from ≡ u) ⊎ (m.peer ≡ u)) where
    copied-IsAccount :
        IsAccount d.messages d.msg_seq u mu (refs_of d u) (updates_of d u)
        → IsAccount d.messages d.msg_seq u
            (bump mu)
            (refs_of (copied u global_id out now mu d) u)
            (updates_of (copied u global_id out now mu d) u)
    copied-IsAccount a =
        rw (get-put_self ℕ_discrete u _ d.refs, get-put_self ℕ_discrete u _ d.updates)
          (record {
            gapless =
                Chain-snoc int0 mu.pts (updates_of d u)
                  (entry (inc mu.pts) UpdateType.new global_id now) a.gapless (omega arith)
                  (omega arith);
            refs_ok =
                All-put ℕ_discrete (IsRef d.messages d.msg_seq u (inc mu.last_message_id)) _ _ _
                  fresh
                  (All-map _ _
                    (λ e.
                      IsRef-extend d.messages d.messages d.msg_seq d.msg_seq u mu.last_message_id
                        (inc mu.last_message_id) (Extends-refl d.messages d.msg_seq) (omega arith)
                        (omega arith))
                    (refs_of d u) a.refs_ok);
            distinct = put-Distinct ℕ_discrete _ _ (refs_of d u) a.distinct;
            started = omega (arith, a.started);
            self_id = a.self_id;
          })
      where
        fresh :
            IsRef d.messages d.msg_seq u
              (inc mu.last_message_id)
              (inc mu.last_message_id, new_ref mu global_id out)
        fresh = record {
          keyed = refl;
          positive = omega (arith, a.started);
          allocated = omega arith;
          known = known;
          canonical = m;
          stored = stored;
          named = named;
          sent = side;
          received = party;
        }

    -- One participant's share of SendMessage keeps the database valid.
    pub copied-IsValid : IsValid d → IsValid (copied u global_id out now mu d)
    copied-IsValid valid =
        SameElsewhere-IsValid u d _ mu (bump mu) copied-SameElsewhere valid found user_of-copied
          (copied-IsAccount (valid.accounts u mu found))
