-- ===== src/Rpc/Reply.antt =====
-- internal/rpc: what an RPC handler answers, with the storage as its state.
-- The storage is the in-memory database. A handler that fails keeps what it had already stored.
use teled.Prelude.{Option, some, none}
use teled.Prelude.{◌≡◌, ap}
use teled.Types.{Result, ok, err, panic}
use teled.Memory.State.{Db}

-- The RPC errors, tgerr.New(code, text).
pub data RpcError : Type 0 where
  not_implemented internal auth_key_unregistered phone_code_expired phone_code_invalid : RpcError
  phone_number_occupied access_token_invalid encrypted_message_invalid peer_id_invalid : RpcError
  user_id_invalid message_id_invalid username_not_occupied username_invalid : RpcError
  username_not_modified username_occupied user_bot_required file_part_invalid : RpcError
  media_invalid file_reference_empty location_invalid file_id_invalid : RpcError

-- `crash` is a panic of the storage.
pub data Reply (A : Type 0) : Type 0 where
  reply : A → Reply A
  fail : RpcError → Reply A
  crash : Reply A

-- A handler over a state S; over the storage alone it is an Rpc.
abbrev pub Exec : Type 0 → Type 0 → Type 0
Exec S A = S → Reply A × S

abbrev pub Rpc : Type 0 → Type 0
Rpc A = Exec Db A

infixl 5 ◌>>=◌ ◌>>◌
abbrev pub ◌>>=◌ : {S A B : Type 0} → Exec S A → (A → Exec S B) → Exec S B
◌>>=◌ m f s =
    let (r, s') = m s in elim r [ reply a ↦ f a s' | fail e ↦ (fail e, s') | crash ↦ (crash, s') ]

abbrev pub ◌>>◌ : {S B : Type 0} → Exec S (Unit {0}) → Exec S B → Exec S B
m >> k = m >>= λ _. k

abbrev pub return : {S A : Type 0} → A → Exec S A
return a s = (reply a, s)

abbrev pub throw : {S A : Type 0} → RpcError → Exec S A
throw e s = (fail e, s)

-- A storage call that writes; its error is logged and answered as INTERNAL.
abbrev pub call : {A : Type 0} → (Db → Result (A × Db)) → Rpc A
call f d = elim (f d) [ ok r ↦ (reply r.0, r.1) | err e ↦ (fail internal, d) | panic ↦ (crash, d) ]

-- A storage call that only reads, and one that cannot fail.
abbrev pub look : {S A : Type 0} → (S → A) → Exec S A
look f d = (reply (f d), d)

abbrev pub save : {S : Type 0} → (S → S) → Exec S (Unit {0})
save f d = (reply tt, f d)

-- requireDB: without a database the handlers that ask for it answer NOT_IMPLEMENTED.
abbrev pub with_db : {A : Type 0} → Option Db → Rpc A → Reply A × Option Db
with_db none k = (fail not_implemented, none)
with_db (some d) k = let (r, d') = k d in (r, some d')

-- A handler that goes on after a reply.
pub bind-replies :
    {S A B : Type 0} (m : Exec S A) (k : A → Exec S B) (d d' : S) (a : A)
    → m d ≡ (reply a, d')
    → (m >>= k) d ≡ k a d'
bind-replies m k d d' a e =
    ap (λ x. elim x.0 [ reply b ↦ k b x.1 | fail r ↦ (fail r, x.1) | crash ↦ (crash, x.1) ]) e

-- A handler that fails ends there.
pub bind-fails :
    {S A B : Type 0} (m : Exec S A) (k : A → Exec S B) (d d' : S) (r : RpcError)
    → m d ≡ (fail r, d')
    → (m >>= k) d ≡ (fail r, d')
bind-fails m k d d' r e =
    ap (λ x. elim x.0 [ reply b ↦ k b x.1 | fail q ↦ (fail q, x.1) | crash ↦ (crash, x.1) ]) e
