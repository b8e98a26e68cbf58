-- ===== src/Memory/Account/Delete.antt =====
-- memory/db.go, DeleteMessages as a whole: what it marks, what it answers, and that it keeps the
-- database valid.
use teled.Prelude.{
  ◌+◌, ◌<◌, ◌≡◌, ◌≢◌, refl, sym, ◌∙◌, List, [], ◌∷◌, ◌++◌, some, none, arith, Int64, int0, int,
  word, add_len, length, get, subst, append-nil, ℕ, keep, All, ℕ_discrete,
}
use teled.Types.{Time, DeleteResult, UpdateType, encode_deleted, UpdateLogEntry, ok}
use teled.Memory.State.{Db, MemUser, MemRef, user_of, message_of, refs_of, updates_of}
use teled.Memory.Messages.{log_update}
use teled.Memory.Revisions.{delete_each, log_deleted, delete_messages}
use teled.Memory.Account.{IsValid}
use teled.Memory.Account.Advance.{
  logged, advanced, allocate_pts-ok, user_of-advanced, updates_of-advanced, advanced-IsValid,
}
use teled.Memory.Account.Marks.{
  owned, length-owned, Marked, delete_each-users, delete_each-IsValid, delete_each-owned,
  delete_each-Marked, delete_each-others,
}

delete_messages-step :
    (self : Int64) (ids : List Int64) (now : Time) (d : Db)
    → delete_messages self ids now d
      ≡ log_deleted self (owned (refs_of d self) ids) now (delete_each self ids d).1
unfolding delete_messages
delete_messages-step self ids now d = rw (delete_each-owned self (refs_of d self) ids d refl)

-- The log entry of a deletion; deleting nothing logs nothing.
unfoldable pub deletion : Int64 → List Int64 → Time → List UpdateLogEntry
deletion pts [] now = []
deletion pts (i ∷ ids) now =
    logged (pts + length (i ∷ ids)) (int (length (i ∷ ids))) UpdateType.delete none
      (encode_deleted (i ∷ ids)) now
    ∷ []

-- What a deletion of the given local ids answers, and what it does to the caller's account.
pub record Deletes (self : Int64) (ids : List Int64) (now : Time) (mu : MemUser) (d : Db)
    (res : DeleteResult) (d' : Db) : Type 0 where
  pub valid : IsValid d'
  pub local_ids : res.local_ids ≡ ids
  pub pts_count : res.pts_count ≡ int (length ids)
  pub row : (mu' : MemUser) × (user_of d' self ≡ some mu') × (mu'.pts ≡ mu.pts + length ids)
  pub log : updates_of d' self ≡ updates_of d self ++ deletion mu.pts ids now

log_deleted-Deletes :
    (self : Int64) (ids : List Int64) (now : Time) (d : Db) (mu : MemUser)
    → IsValid d
    → user_of d self ≡ some mu
    → mu.pts + length ids < word
    → (res : DeleteResult) × (d' : Db) × (log_deleted self ids now d ≡ ok (res, d'))
      × Deletes self ids now mu d res d'
      × (d'.messages ≡ d.messages)
unfolding log_deleted deletion log_update
log_deleted-Deletes self [] now d mu valid found room = (
  _,
  d,
  refl,
  record {
    valid = valid;
    local_ids = refl;
    pts_count = omega arith;
    row = (mu, found, omega arith);
    log = sym (append-nil (updates_of d self));
  },
  refl,
)
log_deleted-Deletes self (i ∷ ids) now d mu valid found room = (
  record { pts = pts; pts_count = int n; local_ids = i ∷ ids },
  advanced self mu pts e d,
  rw (allocate_pts-ok self mu d found n) (rw pts_eq),
  record {
    valid = advanced-IsValid self mu d found pts e (omega arith) (omega arith) (omega arith) valid;
    local_ids = refl;
    pts_count = refl;
    row = (record mu { pts = pts }, user_of-advanced self mu d found pts e, omega arith);
    log = updates_of-advanced self mu d found pts e;
  },
  refl,
)
  where
    n : ℕ
    n = length (i ∷ ids)

    pts : Int64
    pts = mu.pts + n

    pts_eq : add_len mu.pts n ≡ pts
    pts_eq = omega arith

    e : UpdateLogEntry
    e = logged pts (int n) UpdateType.delete none (encode_deleted (i ∷ ids)) now

-- DeleteMessages on an account that exists, whose pts has room: the call succeeds. It reports
-- exactly those of the given ids that the caller has, advances the caller's pts by their number with
-- one log entry (and none for none), marks every message that one of the ids names as deleted, changes
-- no other message, and keeps the database valid.
pub delete_messages-Deletes :
    (self : Int64) (ids : List Int64) (now : Time) (d : Db) (mu : MemUser)
    → IsValid d
    → user_of d self ≡ some mu
    → mu.pts + length ids < word
    → (res : DeleteResult) × (d' : Db) × (delete_messages self ids now d ≡ ok (res, d'))
      × Deletes self (owned (refs_of d self) ids) now mu d res d'
      × Marked self (refs_of d self) ids d'
      × ((g : Int64)
          → All
              (λ i. (r : MemRef) → get ℕ_discrete i (refs_of d self) ≡ some r → g ≢ r.global_id)
              ids
          → message_of d' g ≡ message_of d g)
delete_messages-Deletes self ids now d mu valid found room =
    let rs = refs_of d self in
    let kept = owned rs ids in
    let d₁ = (delete_each self ids d).1 in
    let same = delete_each-users self rs ids d in
    let (res, d', ran, del, messages) =
      log_deleted-Deletes self kept now d₁ mu (delete_each-IsValid self rs ids d valid)
        (rw same.0 found) (omega (arith, length-owned rs ids)) in
    (
      res,
      d',
      delete_messages-step self ids now d ∙ ran,
      record {
        valid = del.valid;
        local_ids = del.local_ids;
        pts_count = del.pts_count;
        row = del.row;
        log = del.log ∙ rw same.1;
      },
      subst (λ ms. Marked self rs ids (record d { messages = ms })) (sym messages)
          (delete_each-Marked self rs ids d refl),
      λ g h. rw messages (delete_each-others self rs ids d g refl h),
    )

owned-empty : (ids : List Int64) → owned [] ids ≡ []
unfolding owned keep get
owned-empty [] = refl
owned-empty (i ∷ ids) = owned-empty ids

-- A caller with no ref deletes nothing.
pub delete_messages-stranger :
    (self : Int64) (ids : List Int64) (now : Time) (d : Db)
    → IsValid d
    → refs_of d self ≡ []
    → (res : DeleteResult) × (d' : Db) × (delete_messages self ids now d ≡ ok (res, d'))
      × IsValid d'
unfolding log_deleted
delete_messages-stranger self ids now d valid bare =
    let step = delete_messages-step self ids now d in
    (
      record { pts = int0; pts_count = int0; local_ids = [] },
      (delete_each self ids d).1,
      step ∙ rw (bare, owned-empty ids),
      delete_each-IsValid self [] ids d valid,
    )
