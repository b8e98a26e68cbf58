-- ===== src/Memory/Account/Keeps.antt =====
-- memory/db.go: each call that writes accounts, messages, refs or logs keeps the database valid,
-- whatever its outcome. (A call that fails or panics has no state to speak of.)
use teled.Prelude.{
  ◌+◌, ◌<◌, ◌≡◌, ◌≢◌, inl, inr, refl, sym, ◌∙◌, List, Option, some, none, arith, Int64, int, word,
  length, Str, get, put, ℕ_discrete, ◌==◌, Bool-cases, if_cases, Option-cases, add_len,
}
use teled.Types.{Time, EditResult, UpdateType, no_extra, Result, ok, err, panic, ◌>>=◌}
use teled.Memory.State.{Db, MemUser, MemMessage, new_user, user_of, message_of, refs_of}
use teled.Memory.Messages.{allocate, allocate_pts, log_update, send_message}
use teled.Memory.Revisions.{
  edit_peer, edit_stored, edit_message, editable, edited, put_message, delete_messages,
}
use teled.Memory.Reading.{read_history}
use teled.Memory.Users.{
  human, bot, taken, create_user, create_bot, create_owned_bot, set_bot_token, set_profile,
  set_username, clashes,
}
use teled.Memory.Account.{IsValid}
use teled.Memory.Account.Start.{replace_user-IsValid}
use teled.Memory.Account.Create.{HasId, store_user-IsValid}
use teled.Memory.Account.Send.{send_message-no_peer, send_message-delivers, send_message-self_chat}
use teled.Memory.Account.Edit.{put_message-IsValid}
use teled.Memory.Account.Advance.{advanced, advanced-SameElsewhere, advanced-IsValid, logged}
use teled.Memory.Account.Delete.{delete_messages-Deletes, delete_messages-stranger}
use teled.Memory.Account.Receipt.{read_history-reads, read_history-missing}

-- Success leaves a valid database.
abbrev pub Keeps : {A : Type 0} → Result (A × Db) → Type 0
Keeps (ok r) = IsValid r.1
Keeps (err e) = Unit
Keeps panic = Unit

-- n more steps wrap no counter.
pub record HasSlack (n : Int64) (d : Db) : Type 0 where
  pub counters :
      (u : Int64) (mu : MemUser)
      → user_of d u ≡ some mu
      → (mu.last_message_id + n < word) × (mu.pts + n < word)
  pub messages : d.msg_seq + n < word

pub create_user-Keeps :
    (phone first last : Str) (raw : Int64) (now : Time) (d : Db)
    → IsValid d
    → HasId d
    → Keeps (create_user phone first last raw now d)
unfolding create_user
create_user-Keeps phone first last raw now d valid room =
    elim (Bool-cases (taken (λ mu. mu.u.phone) phone d)) [
      | inl e ↦ rw e tt
      | inr e ↦ rw e (
          store_user-IsValid d (new_user (human phone first last raw now d)) valid room refl refl
            refl)
    ]

pub create_bot-Keeps :
    (token username first : Str) (raw : Int64) (now : Time) (d : Db)
    → IsValid d
    → HasId d
    → Keeps (create_bot token username first raw now d)
unfolding create_bot
create_bot-Keeps token username first raw now d valid room =
    elim (Bool-cases (taken (λ mu. mu.u.bot_token) token d)) [
      | inl e ↦ rw e tt
      | inr e ↦ elim (Bool-cases (taken (λ mu. mu.u.username) username d)) [
        | inl e' ↦ rw (e, e') tt
        | inr e' ↦
            rw (e, e')
              (store_user-IsValid d (new_user (bot token username first raw now d)) valid room refl
                refl refl)
      ]
    ]

pub create_owned_bot-Keeps :
    (username first : Str) (owner : Int64) (secret : Str) (raw : Int64) (now : Time) (d : Db)
    → IsValid d
    → HasId d
    → Keeps (create_owned_bot username first owner secret raw now d)
unfolding create_owned_bot
create_owned_bot-Keeps username first owner secret raw now d valid room =
    elim (Bool-cases (taken (λ mu. mu.u.username) username d)) [
      | inl e ↦ rw e tt
      | inr e ↦ rw e (store_user-IsValid d _ valid room refl refl refl)
    ]

pub set_bot_token-IsValid :
    (id : Int64) (token : Str) (d : Db) → IsValid d → IsValid (set_bot_token id token d)
unfolding set_bot_token
set_bot_token-IsValid id token d valid = elim (Option-cases (user_of d id)) [
  | inl e ↦ rw (e, set_bot_token) valid
  | inr (mu, e) ↦
      rw (e, set_bot_token)
        (if_cases IsValid mu.u.is_bot _ _
          (λ b. replace_user-IsValid id mu (record mu.u { bot_token = token }) d e refl valid)
          (λ b. valid))
]

pub set_profile-Keeps :
    (id : Int64) (first last about : Option Str) (d : Db)
    → IsValid d
    → Keeps (set_profile id first last about d)
unfolding set_profile
set_profile-Keeps id first last about d valid = elim (Option-cases (user_of d id)) [
  | inl e ↦ rw (e, set_profile) tt
  | inr (mu, e) ↦ rw (e, set_profile) (replace_user-IsValid id mu _ d e refl valid)
]

pub set_username-Keeps :
    (id : Int64) (name : Str) (d : Db) → IsValid d → Keeps (set_username id name d)
unfolding set_username
set_username-Keeps id name d valid = elim (Option-cases (user_of d id)) [
  | inl e ↦ rw (e, set_username) tt
  | inr (mu, e) ↦
      rw (e, set_username)
        (elim (Bool-cases (clashes id name d)) [
          | inl b ↦ rw b tt
          | inr b ↦
              rw b (replace_user-IsValid id mu (record mu.u { username = name }) d e refl valid)
        ])
]

abbrev allocated_pts : Int64 → MemUser → Db → Int64 × Db
allocated_pts u mu d = (
  add_len mu.pts 1,
  record d { users = put ℕ_discrete u (record mu { pts = add_len mu.pts 1 }) d.users },
)

-- The parts of SendMessage and EditMessage for one account, which may be missing.
advance-Keeps :
    (u : Int64) (d : Db) (k : Int64 × Db → Result (EditResult × Db))
    → ((mu : MemUser) → user_of d u ≡ some mu → Keeps (k (allocated_pts u mu d)))
    → Keeps (allocate_pts u 1 d >>= k)
unfolding allocate_pts
advance-Keeps u d k then_ok = elim (Option-cases (user_of d u)) [
  | inl e ↦ rw (e, allocate_pts) tt
  | inr (mu, e) ↦ rw (e, allocate_pts) (then_ok mu e)
]

edit_peer-Keeps :
    (res : EditResult) (self g : Int64) (now : Time) (d : Db)
    → IsValid d
    → ((mu : MemUser)
        → res.peer_user_id ≢ self
        → user_of d res.peer_user_id ≡ some mu
        → mu.pts + 1 < word)
    → Keeps (edit_peer res self g now d)
unfolding edit_peer log_update
edit_peer-Keeps res self g now d valid room =
    if_cases Keeps (res.peer_user_id == self) _ _ (λ same. valid)
      (λ differ. advance-Keeps res.peer_user_id d _ (λ mu e.
        let ne : res.peer_user_id ≢ self = ground arith in
        let small = room mu ne e in
        advanced-IsValid res.peer_user_id mu d e (add_len mu.pts 1)
          (logged (add_len mu.pts 1) (int 1) UpdateType.edit (some g) no_extra now) (omega arith)
          (omega arith) refl valid))

edit_stored-Keeps :
    (self local_id g : Int64) (m : MemMessage) (text : Str) (now : Time) (d : Db)
    → IsValid d
    → HasSlack 1 d
    → message_of d g ≡ some m
    → Keeps (edit_stored self local_id g m text now d)
unfolding edit_stored log_update
edit_stored-Keeps self local_id g m text now d valid slack stored =
    let d₀ = put_message g (edited m text now) d in
    let valid₀ = put_message-IsValid g m (edited m text now) d stored refl refl refl valid in
    advance-Keeps self d₀ _ λ mu e.
      let small = slack.counters self mu e in
      let pts = add_len mu.pts 1 in
      let entry = logged pts (int 1) UpdateType.edit (some m.global_id) no_extra now in
      edit_peer-Keeps _ self m.global_id now (advanced self mu pts entry d₀)
        (advanced-IsValid self mu d₀ e pts entry (omega arith) (omega arith) refl valid₀)
        (λ mp ne e'.
          (slack.counters m.peer mp
            (sym ((advanced-SameElsewhere self mu d₀ e pts entry).users m.peer ne) ∙ e')).1)

pub edit_message-Keeps :
    (self local_id : Int64) (text : Str) (now : Time) (d : Db)
    → IsValid d
    → HasSlack 1 d
    → Keeps (edit_message self local_id text now d)
unfolding edit_message
edit_message-Keeps self l text now d valid slack =
    elim (Option-cases (get ℕ_discrete l (refs_of d self))) [
      | inl e ↦ rw (e, edit_message) tt
      | inr (r, e) ↦
          rw (e, edit_message)
            (elim (Option-cases (message_of d r.global_id)) [
              | inl e' ↦ rw (e', edit_message) tt
              | inr (m, e') ↦
                  rw (e', edit_message)
                    (if_cases Keeps (editable self m) _ _
                      (λ b. edit_stored-Keeps self l r.global_id m text now d valid slack e')
                      (λ b. tt))
            ])
    ]

-- A call that panics, for an account that is not there.
pub send_message-missing :
    (from peer : Int64) (text : Str) (rid fid : Int64) (now : Time) (d : Db)
    → user_of d from ≡ none
    → send_message from peer text rid fid now d ≡ panic
unfolding send_message
send_message-missing from peer text rid fid now d e = rw (e, allocate)

pub send_message-Keeps :
    (from peer : Int64) (text : Str) (rid fid : Int64) (now : Time) (d : Db)
    → IsValid d
    → HasSlack 1 d
    → Keeps (send_message from peer text rid fid now d)
send_message-Keeps from peer text rid fid now d valid slack = elim (Option-cases (user_of d from)) [
  | inl e ↦ rw (send_message-missing from peer text rid fid now d e) tt
  | inr (mf, e) ↦ elim (ℕ_discrete from peer) [
    | yes same ↦
        let r =
          send_message-self_chat from text rid fid now d mf valid e (slack.counters from mf e)
            slack.messages in
        rw (← same, r.2) r.7
    | no differ ↦ elim (Option-cases (user_of d peer)) [
      | inl e' ↦ rw (send_message-no_peer from peer text rid fid now d mf e e' differ) tt
      | inr (mp, e') ↦
          let r =
            send_message-delivers from peer text rid fid now d mf mp valid e e' differ
              (slack.counters from mf e) (slack.counters peer mp e') slack.messages in
          rw r.2 r.10
    ]
  ]
]

pub delete_messages-Keeps :
    (self : Int64) (ids : List Int64) (now : Time) (d : Db)
    → IsValid d
    → HasSlack (length ids + 1) d
    → Keeps (delete_messages self ids now d)
delete_messages-Keeps self ids now d valid slack = elim (Option-cases (user_of d self)) [
  | inl e ↦
      let r = delete_messages-stranger self ids now d valid (valid.strangers self e).0 in rw r.2 r.3
  | inr (mu, e) ↦
      let room = slack.counters self mu e in
      let r = delete_messages-Deletes self ids now d mu valid e (omega arith) in rw r.2 r.3.valid
]

pub read_history-Keeps :
    (self peer max_id : Int64) (now : Time) (d : Db)
    → IsValid d
    → HasSlack 1 d
    → Keeps (read_history self peer max_id now d)
read_history-Keeps self peer max_id now d valid slack = elim (Option-cases (user_of d self)) [
  | inl e ↦ rw (read_history-missing self peer max_id now d e) tt
  | inr (mu, e) ↦
      let r =
        read_history-reads self peer max_id now d mu valid e (slack.counters self mu e).1
          (λ mp e'. (slack.counters peer mp e').1) in
      rw r.2 r.7
]
