-- ===== src/Memory/Account/Start.antt =====
-- memory/db.go, NewDB, and the writes that touch no message: the empty database is valid, and these
-- writes keep it so.
use teled.Prelude.{
  ◌≡◌, inr, refl, sym, ◌∙◌, some, arith, Int64, get, get-put_self, get-put_ne, ℕ_discrete,
}
use teled.Types.{Time, User, bot_father_id}
use teled.Memory.State.{Db, MemUser, new_db, new_user, bot_father, user_of}
use teled.Memory.Users.{replace_user}
use teled.Memory.Account.{IsValid, SameElsewhere-IsValid}

pub new_db-IsValid : (now : Time) → IsValid (new_db now)
unfolding new_db get
new_db-IsValid now = record {
  accounts = λ u mu e. elim (ℕ_discrete bot_father_id u) [
    | yes p ↦
        let q : new_user (bot_father now) ≡ mu = ground arith in
        rw (← q) (record {
          gapless = refl;
          refs_ok = tt;
          distinct = tt;
          started = omega arith;
          self_id = p;
        })
    | no p ↦ absurd (ground arith)
  ];
  strangers = λ u e. (refl, refl);
  numbered = λ u mu e. elim (ℕ_discrete bot_father_id u) [
    | yes p ↦ inr (sym p)
    | no p ↦ absurd (ground arith)
  ];
}

-- A change of an account's public fields that keeps its id keeps the database valid.
pub replace_user-IsValid :
    (id : Int64) (mu : MemUser) (u : User) (d : Db)
    → user_of d id ≡ some mu
    → u.id ≡ mu.u.id
    → IsValid d
    → IsValid (replace_user id mu u d)
replace_user-IsValid id mu u d found same valid =
    let a = valid.accounts id mu found in
    SameElsewhere-IsValid id d _ mu (record mu { u = u })
      (record {
        users = λ v ne. get-put_ne ℕ_discrete id v _ d.users ne;
        refs = λ v ne. refl;
        updates = λ v ne. refl;
        messages = refl;
        msg_seq = refl;
        user_seq = refl;
      })
      valid found (get-put_self ℕ_discrete id _ d.users)
      (record {
        gapless = a.gapless;
        refs_ok = a.refs_ok;
        distinct = a.distinct;
        started = a.started;
        self_id = same ∙ a.self_id;
      })
