-- ===== src/Rpc/Contacts.antt =====
-- internal/rpc/contacts.go: the contact list, and the search for users.
use teled.Prelude.{
  List, [], ◌∷◌, ◌++◌, Option, none, some, Bool, true, false, Str, codes, Int64, int, map, Map, get,
  put, or_else, ◌==◌, ℕ_discrete, trim_prefix,
}
use teled.Types.{User, Contact, unix}
use teled.Memory.State.{Db}
use teled.Memory.Rows.{contacts, add_contact, delete_contacts}
use teled.Memory.Users.{user_by_id, user_by_phone, search_users}
use teled.Rpc.Reply.{Exec, reply, fail, crash, ◌>>=◌, ◌>>◌, look, save}
use teled.Rpc.Caller.{InputPeer, resolve_input_user}
use teled.Rpc.Auth.{normalize_phone}
use teled.Rpc.Server.{Context, TgUser, Updates, Server, on_db, seen_by, caller_of}
use teled.Rpc.Messages.{page}

-- tg.ContactsFound: the ids, and the users.
unfoldable pub contacts_search : Context → Str → Int64 → Exec Server (List Int64 × List TgUser)
contacts_search c q limit h =
    let found =
      search_users c.to_lower c.trim_space (trim_prefix q (codes "@")) (page (int 20) limit) h.db in
    (reply (map (λ (u : User). u.id) found, map (λ u. seen_by c h u false) found), h)

-- The loop of contactsGetContacts.
unfoldable pub known_contacts : Context → Server → List Contact → List (Int64 × TgUser)
known_contacts c h [] = []
known_contacts c h (k ∷ ks) = elim (user_by_id k.user_id h.db) [
  | none ↦ known_contacts c h ks
  | some u ↦ (k.user_id, seen_by c h u false) ∷ known_contacts c h ks
]

-- tg.ContactsContacts: each contact's id with its user.
unfoldable pub contacts_get_contacts : Context → Exec Server (List (Int64 × TgUser))
unfolding known_contacts
contacts_get_contacts c = do
  caller ← caller_of c
  look (λ h. known_contacts c h (contacts caller.id h.db))

-- tg.InputPhoneContact.
pub record PhoneContact : Type 0 where
  pub client_id : Int64
  pub phone : Str
  pub first_name : Str
  pub last_name : Str

-- tg.ContactsImportedContacts: user id and client id of each, and the users. `seen` is the map of the loop.
pub record Imported : Type 0 where
  pub imported : List (Int64 × Int64)
  pub users : List TgUser
  pub seen : Map Int64 Bool

-- The loop of contactsImportContacts, for a phone number that another account has.
unfoldable pub note_import : Context → Server → User → PhoneContact → Imported → Imported
note_import c h u k l =
    let known = or_else (get ℕ_discrete u.id l.seen) false in
    record {
      imported = l.imported ++ (u.id, k.client_id) ∷ [];
      users = elim known [ true ↦ l.users | false ↦ l.users ++ seen_by c h u false ∷ [] ];
      seen = put ℕ_discrete u.id true l.seen;
    }

-- The account that a phone contact matches, the caller's own aside.
unfoldable pub import_match : User → PhoneContact → Db → Option User
import_match caller k d = elim (user_by_phone (normalize_phone k.phone) d) [
  | none ↦ none
  | some u ↦ elim (u.id == caller.id) [ true ↦ none | false ↦ some u ]
]

unfoldable pub import_each :
    Context → User → List PhoneContact → Imported → Server → Imported × Server
unfolding note_import import_match
import_each c caller [] l h = (l, h)
import_each c caller (k ∷ ks) l h = elim (import_match caller k h.db) [
  | none ↦ import_each c caller ks l h
  | some u ↦
      import_each c caller ks (note_import c h u k l)
        (record h { db = add_contact caller.id u.id k.first_name k.last_name h.db })
]

unfoldable pub contacts_import_contacts : Context → List PhoneContact → Exec Server Imported
unfolding import_each
contacts_import_contacts c list = do
  caller ← caller_of c
  λ h.
      let (l, h') = import_each c caller list (record { imported = []; users = []; seen = [] }) h in
      (reply l, h')

unfoldable pub contacts_add_contact : Context → InputPeer → Str → Str → Exec Server Updates
unfolding resolve_input_user
contacts_add_contact c id first_name last_name = do
  caller ← caller_of c
  target ← on_db (resolve_input_user caller id)
  on_db (save (add_contact caller.id target.id first_name last_name))
  look (λ h. record { updates = []; users = seen_by c h target false ∷ []; date = unix c.now })

-- The loop of contactsDeleteContacts: who is not resolved is skipped.
unfoldable pub resolved_users : User → List InputPeer → Db → List User
unfolding resolve_input_user
resolved_users caller [] d = []
resolved_users caller (id ∷ ids) d = elim (resolve_input_user caller id d).0 [
  | reply u ↦ u ∷ resolved_users caller ids d
  | fail e ↦ resolved_users caller ids d
  | crash ↦ resolved_users caller ids d
]

unfoldable pub contacts_delete_contacts : Context → List InputPeer → Exec Server Updates
unfolding resolved_users
contacts_delete_contacts c ids = do
  caller ← caller_of c
  found ← look (λ h. resolved_users caller ids h.db)
  on_db (save (delete_contacts caller.id (map (λ (u : User). u.id) found)))
  look (λ h. record {
    updates = [];
    users = map (λ u. seen_by c h u false) found;
    date = unix c.now;
  })
