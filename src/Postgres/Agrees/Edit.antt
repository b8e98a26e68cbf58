-- ===== src/Postgres/Agrees/Edit.antt =====
-- internal/db/edit_delete.go and memory/db.go: the parts of EditMessage, the peer's share and the
-- UPDATE of the message, do the same to both storages.
use teled.Prelude.{
  ◌+◌, ◌<◌, ◌≡◌, ◌≢◌, refl, sym, ap, ◌∙◌, [], none, some, true, false, ◌&&◌, not, arith, Str, Int64,
  int0, add_len, word, get, ℕ_discrete, ◌==◌, Bool-cases, Option-cases, inl, inr, Map,
}
use teled.Types.{Time, EditResult, panic, message_id_invalid}
use teled.Memory.State.{Db, user_of}
use teled.Memory.Messages.{ref_by_global, log_update as mem_log, allocate_pts as mem_allocate}
use teled.Memory.Revisions.{edit_peer as mem_peer}
use teled.Memory.Account.{IsValid}
use teled.Memory.Account.Advance.{advanced, allocate_pts-ok}
use teled.Memory.Account.Edit.{edit_entry}
use teled.Postgres.Tables.{UserRow, MessageRow, Tables, Sequences}
use teled.Postgres.Sql.{done, fault, no_rows, reported, chosen}
use teled.Postgres.Messages.{user_row, message_row}
use teled.Postgres.Revisions.{
  ref_of_message, peer_local, edit_peer, edit_row, editable, edited, update_messages, scan_or,
}
use teled.Postgres.Running.{online}
use teled.Postgres.Keyed.{find-key}
use teled.Postgres.Agrees.{Agrees, mem_user, keyed_ref, agrees-user}
use teled.Postgres.Agrees.Copy.{fresh_entry}
use teled.Postgres.Agrees.Advance.{
  advanced_rows, allocate_pts_missing, allocate_pts_runs, log_update_runs, advanced-Agrees,
}
use teled.Postgres.Agrees.Revise.{ref_of_message-Agrees}
use teled.Postgres.Agrees.Matching.{Follows, Follows-done, Follows-panic}

pub get-empty :
    {A : Type 0} (k : Int64) (m : Map Int64 A) {a : A} → m ≡ [] → get ℕ_discrete k m ≡ some a → ⊥
unfolding get
get-empty k m e h = absurd (cc (h, ap (get ℕ_discrete k) e))

module _ (t : Tables) (q : Sequences) (d : Db) (agrees : Agrees t q d) (valid : IsValid d) where
  peer_local_runs :
      (u g : Int64)
      → peer_local u g (online t q)
        ≡ (done (elim (ref_by_global u g d) [ none ↦ int0 | some pr ↦ pr.local_id ]), online t q)
  unfolding peer_local
  peer_local_runs u g =
      let same = ref_of_message-Agrees t q d agrees u g in
      elim (Option-cases (ref_of_message u g t)) [
        | inl e ↦
            let gone : ref_by_global u g d ≡ none =
              sym same ∙ ap (chosen (λ r. (keyed_ref r).1)) e in
            rw (e, gone) refl
        | inr (r, e) ↦
            let there : ref_by_global u g d ≡ some (keyed_ref r).1 =
              sym same ∙ ap (chosen (λ r. (keyed_ref r).1)) e in
            rw (e, there) refl
      ]

  pub mem_missing : (u : Int64) → user_row u t ≡ none → mem_allocate u 1 d ≡ panic
  unfolding mem_allocate
  mem_missing u gone =
      let none_there : user_of d u ≡ none = sym (agrees.users u) ∙ ap (chosen mem_user) gone in
      rw (none_there, mem_allocate) refl

  pub edit_peer-Follows :
      (res : EditResult) (self g : Int64) (now : Time)
      → (res.peer_user_id ≢ self
          → (row : UserRow) → user_row res.peer_user_id t ≡ some row
          → row.pts + 1 < word)
      → Follows q (edit_peer res self g now (online t q)) (mem_peer res self g now d)
  unfolding edit_peer mem_peer mem_log
  edit_peer-Follows res self g now room = elim (Bool-cases (res.peer_user_id == self)) [
    | inl same ↦ Follows-done q _ _ res t q d (rw same refl) (rw same refl) agrees
    | inr other ↦
        let u = res.peer_user_id in
        let local_runs = peer_local_runs u g in
        elim (Option-cases (user_row u t)) [
          | inl e ↦
              let stops = allocate_pts_missing u 1 t q e in
              let stops' = mem_missing u e in
              Follows-panic q _ _ no_rows (online t q) (ground (arith, other, local_runs, stops))
                (rw other (rw stops' refl))
          | inr (row, e) ↦
              let pts = add_len row.pts 1 in
              let entry = edit_entry pts g now in
              let answer : EditResult = record res {
                peer_local_id = elim (ref_by_global u g d) [ none ↦ int0 | some pr ↦ pr.local_id ];
                peer_pts = pts;
              } in
              let differ : res.peer_user_id ≢ self = (λ s. absurd (ground arith)) in
              let small = room differ row e in
              let advances = allocate_pts_runs u row t q e 1 small in
              let logs =
                log_update_runs u row t q e 1 small entry
                  (fresh_entry u row t q e d agrees valid pts (omega arith)) (omega arith) in
              let advances' =
                allocate_pts-ok u (mem_user row) d (agrees-user t q d agrees u row e) 1 in
              Follows-done q _ _ answer (advanced_rows u 1 entry t) q
                (advanced u (mem_user row) pts entry d)
                (ground (arith, other, local_runs, advances, logs)) (rw other (rw advances' refl))
                (advanced-Agrees u row t q e 1 small d agrees entry)
        ]
  ]

module _ (t : Tables) (q : Sequences) (d : Db) (agrees : Agrees t q d) (self g : Int64) (text : Str)
    (now : Time) (m : MessageRow) (stored : message_row g t ≡ some m) where
  pub edit_row_runs :
      (m.from_user_id == self) && not m.deleted ≡ true
      → edit_row self g text now (online t q)
        ≡ (done m, online (update_messages (editable self g) (edited text now) t) q)
  unfolding edit_row message_row scan_or
  edit_row_runs may =
      let found =
        find-key (λ x. x.global_id) (λ x. (x.from_user_id == self) && not x.deleted) g m t.messages
          agrees.distinct stored in
      ground (arith, found, may)

  pub edit_row_refused :
      (m.from_user_id == self) && not m.deleted ≡ false
      → edit_row self g text now (online t q) ≡ (fault (reported message_id_invalid), online t q)
  unfolding edit_row message_row scan_or
  edit_row_refused may =
      let found =
        find-key (λ x. x.global_id) (λ x. (x.from_user_id == self) && not x.deleted) g m t.messages
          agrees.distinct stored in
      ground (arith, found, may)
