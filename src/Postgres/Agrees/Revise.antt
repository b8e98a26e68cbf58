-- ===== src/Postgres/Agrees/Revise.antt =====
-- internal/db/edit_delete.go and memory/db.go: the lookups and the change of a message that EditMessage and
-- DeleteMessages share, in the two storages.
use teled.Prelude.{
  ◌≡◌, refl, sym, ap, ◌∙◌, Option, none, some, Bool, true, arith, Int64, map, get, values,
  get-put_self, get-put_ne, ℕ_discrete, ◌==◌, ==_false, Option-cases, inl, inr,
}
use teled.Memory.State.{Db, MemUser, MemMessage, MemRef, user_of, message_of}
use teled.Memory.State.{refs_of as mem_refs}
use teled.Memory.Messages.{find, ref_by_global}
use teled.Memory.Revisions.{put_message}
use teled.Postgres.Tables.{UserRow, MessageRow, Tables, Sequences}
use teled.Postgres.Sql.{chosen}
use teled.Postgres.Messages.{user_row, message_row, file_row}
use teled.Postgres.History.{refs_of}
use teled.Postgres.Revisions.{ref_row, ref_of_message, update_messages}
use teled.Postgres.Keyed.{find-update_at, find-update_missing, HasKey-update}
use teled.Postgres.Selecting.{find-keep, find-get, find-map, find-update_other}
use teled.Postgres.Agrees.{Agrees, mem_user, mem_message, keyed_ref}

chosen_twice :
    {A B C : Type 0} (f : A → B) (g : B → C) (o : Option A)
    → chosen g (chosen f o) ≡ chosen (λ x. g (f x)) o
chosen_twice f g none = refl
chosen_twice f g (some a) = refl

module _ (t : Tables) (q : Sequences) (d : Db) (agrees : Agrees t q d) where
  pub ref_row-Agrees :
      (u l : Int64)
      → chosen (λ r. (keyed_ref r).1) (ref_row u l t) ≡ get ℕ_discrete l (mem_refs d u)
  unfolding ref_row
  ref_row-Agrees u l =
      ap (chosen (λ r. (keyed_ref r).1))
        (find-keep (λ r. r.user_id == u) (λ r. r.message_id == l) t.message_refs)
      ∙ find-get (λ r. r.message_id) (λ r. (keyed_ref r).1) l (refs_of u t)
      ∙ ap (get ℕ_discrete l) (agrees.refs u)

  pub ref_of_message-Agrees :
      (u g : Int64) → chosen (λ r. (keyed_ref r).1) (ref_of_message u g t) ≡ ref_by_global u g d
  unfolding ref_of_message ref_by_global
  ref_of_message-Agrees u g =
      let is_g = λ (r : MemRef). r.global_id == g in
      ap (chosen (λ r. (keyed_ref r).1))
        (find-keep (λ r. r.user_id == u) (λ r. r.global_id == g) t.message_refs)
      ∙ sym (chosen_twice keyed_ref (λ e. e.1) (find (λ r. r.global_id == g) (refs_of u t)))
      ∙ ap (chosen (λ e. e.1)) (sym (find-map (λ e. is_g e.1) keyed_ref (refs_of u t)))
      ∙ sym (find-map is_g (λ e. e.1) (map keyed_ref (refs_of u t)))
      ∙ ap (λ m. find is_g (values m)) (agrees.refs u)

  -- The row behind an account, or a message, of the in-memory database.
  pub row_of_user :
      (u : Int64) (mu : MemUser)
      → user_of d u ≡ some mu
      → (row : UserRow) × (user_row u t ≡ some row) × (mem_user row ≡ mu)
  row_of_user u mu e = elim (Option-cases (user_row u t)) [
    | inl h ↦ let same = agrees.users u in absurd (ground (arith, h, same))
    | inr (row, h) ↦ (row, h, cc (ap (chosen mem_user) h, agrees.users u))
  ]

  pub row_of_message :
      (g : Int64) (m : MemMessage)
      → message_of d g ≡ some m
      → (row : MessageRow) × (message_row g t ≡ some row) × (mem_message row ≡ m)
  row_of_message g m e = elim (Option-cases (message_row g t)) [
    | inl h ↦ let same = agrees.messages g in absurd (ground (arith, h, same))
    | inr (row, h) ↦ (row, h, cc (ap (chosen mem_message) h, agrees.messages g))
  ]

  module _ (g : Int64) (m : MessageRow) (stored : message_row g t ≡ some m) (p : MessageRow → Bool)
      (f : MessageRow → MessageRow) (pass : p m ≡ true)
      (only : (x : MessageRow) → p x ≡ true → x.global_id ≡ g)
      (stable : (x : MessageRow) → (f x).global_id ≡ x.global_id) where
    message_of-both :
        (h : Int64)
        → chosen mem_message (message_row h (update_messages p f t))
          ≡ message_of (put_message g (mem_message (f m)) d) h
    unfolding message_row
    message_of-both h = elim (ℕ_discrete h g) [
      | yes e ↦ rw e (
          ap (chosen mem_message)
            (find-update_at (λ x. x.global_id) g p f m t.messages stable pass stored)
          ∙ sym (get-put_self ℕ_discrete g (mem_message (f m)) d.messages))
      | no e ↦
          ap (chosen mem_message) (
            find-update_other (λ x. x.global_id == h) p f t.messages
              (λ x own.
                let at = only x own in
                let same = stable x in
                (
                  ==_false x.global_id h (λ s. e (sym s ∙ at)),
                  ==_false (f x).global_id h (λ s. e (sym s ∙ same ∙ at)),
                )))
          ∙ agrees.messages h
          ∙ sym (get-put_ne ℕ_discrete g h (mem_message (f m)) d.messages e)
    ]

    -- An UPDATE of one message, and the change of that message in memory.
    pub revised-Agrees : Agrees (update_messages p f t) q (put_message g (mem_message (f m)) d)
    unfolding message_row user_row file_row
    revised-Agrees = record {
      users = agrees.users;
      messages = message_of-both;
      refs = agrees.refs;
      log = agrees.log;
      files = agrees.files;
      sequence = agrees.sequence;
      free =
          λ h lt. find-update_missing (λ x. x.global_id) h p f t.messages stable (agrees.free h lt);
      no_file = agrees.no_file;
      distinct = HasKey-update (λ x. x.global_id) p f t.messages stable agrees.distinct;
    }
