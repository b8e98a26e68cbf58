-- ===== src/Rpc/Server/Calls.antt =====
-- internal/rpc: how a handler of the server goes on after a call of the storage that replies.
use teled.Prelude.{◌≡◌, refl, ap, some}
use teled.Types.{User, Result, ok}
use teled.Memory.State.{Db}
use teled.Rpc.Reply.{Exec, Rpc, reply, call, bind-replies, ◌>>=◌}
use teled.Rpc.Caller.{InputPeer, caller_user, require_caller, resolve_peer_user}
use teled.Rpc.Server.{Context, Server, on_db, caller_of, peer_of}

pub on_db-replies :
    {A : Type 0} (m : Rpc A) (h : Server) (a : A) (d : Db)
    → m h.db ≡ (reply a, d)
    → on_db m h ≡ (reply a, record h { db = d })
on_db-replies m h a d e = ap (λ x. (x.0, record h { db = x.1 })) e

pub call-ok :
    {A : Type 0} (f : Db → Result (A × Db)) (d d' : Db) (a : A)
    → f d ≡ ok (a, d')
    → call f d ≡ (reply a, d')
call-ok f d d' a e = rw (e, call) refl

pub caller_of-caller_user :
    (c : Context) (h : Server) (caller : User)
    → caller_user c.key c.now h.db ≡ some caller
    → caller_of c h ≡ (reply caller, h)
unfolding require_caller
caller_of-caller_user c h caller e = rw (e, require_caller) refl

-- What follows the lookup of the caller, of a call of the storage, and of caller and peer.
pub bind-caller_of :
    {B : Type 0} (c : Context) (k : User → Exec Server B) (h : Server) (caller : User)
    → caller_user c.key c.now h.db ≡ some caller
    → (caller_of c >>= k) h ≡ k caller h
bind-caller_of c k h caller e =
    bind-replies (caller_of c) k h h caller (caller_of-caller_user c h caller e)

pub bind-call :
    {A B : Type 0} (f : Db → Result (A × Db)) (k : A → Exec Server B) (h : Server) (d : Db) (a : A)
    → f h.db ≡ ok (a, d)
    → (on_db (call f) >>= k) h ≡ k a (record h { db = d })
bind-call f k h d a e =
    bind-replies (on_db (call f)) k h (record h { db = d }) a
      (on_db-replies (call f) h a d (call-ok f h.db d a e))

pub bind-peer_of :
    {B : Type 0} (caller to : User) (peer : InputPeer) (k : User → Exec Server B) (h : Server)
    → resolve_peer_user caller peer h.db ≡ (reply to, h.db)
    → (peer_of caller peer >>= k) h ≡ k to h
bind-peer_of caller to peer k h e =
    bind-replies (peer_of caller peer) k h h to
      (on_db-replies (resolve_peer_user caller peer) h to h.db e)
