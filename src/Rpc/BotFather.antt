-- ===== src/Rpc/BotFather.antt =====
-- internal/rpc/botfather.go: the engine behind BotFather's chat. Its state between two messages is the
-- caller's row in the storage. The pushes to live sessions are not modelled.
-- strings.TrimSpace, ToLower, EqualFold and Fields are parameters; the token secret is an argument.
use teled.Prelude.{
  ℕ, List, [], ◌∷◌, ◌++◌, some, none, Bool, true, false, ◌&&◌, ◌||◌, not, Str, codes, str_eq,
  length, drop, has_prefix, trim_prefix, Int64, ltb, leb, ◌==◌, if◌then◌else◌, format_int, ◌-◌,
}
use teled.Types.{Time, User, BotFatherState, no_step, new_bot_name, new_bot_username, revoke_select}
use teled.Memory.Messages.{find}
use teled.Memory.Rows.{bot_father_state, set_bot_father_state, clear_bot_father_state}
use teled.Memory.Users.{user_by_username, create_owned_bot, bots_by_owner, set_bot_token}
use teled.Rpc.Reply.{Rpc, reply, crash, ◌>>=◌, ◌>>◌, return, call, save}

-- The reply texts.
unfoldable pub bf_intro : Str
bf_intro =
    codes "I can help you create and manage Telegram bots. "
    ++ codes "Use /newbot to create a new bot.\n\n"
    ++ codes "Commands:\n"
    ++ codes "/newbot - create a new bot\n"
    ++ codes "/mybots - list your bots\n"
    ++ codes "/token - show a bot's token\n"
    ++ codes "/revoke - revoke a bot's token\n"
    ++ codes "/cancel - cancel the current operation"

unfoldable pub bf_ask_name : Str
bf_ask_name =
    codes "Alright, a new bot. How are we going to call it? Please choose a name for your bot."

unfoldable pub bf_ask_username : Str
bf_ask_username =
    codes "Good. Now let's choose a username for your bot. It must end in `bot`. "
    ++ codes "Like this, for example: TetrisBot or tetris_bot."

unfoldable pub bf_ask_revoke : Str
bf_ask_revoke =
    codes "Choose a bot to revoke the token. Send its username, for example @tetris_bot."

unfoldable pub bf_cancelled : Str
bf_cancelled = codes "Canceled."

unfoldable pub bf_nothing_to_do : Str
bf_nothing_to_do = codes "There is no active command to cancel."

unfoldable pub bf_no_bots : Str
bf_no_bots = codes "You don't have any bots yet. Use /newbot to create one."

unfoldable pub bf_bad_name : Str
bf_bad_name = codes "Sorry, this name is invalid. Please choose a name for your bot."

unfoldable pub bf_not_understood : Str
bf_not_understood = codes "I don't understand. Please use /help to see the list of commands."

unfoldable pub bf_bad_username : Str
bf_bad_username =
    codes "Sorry, this username is invalid. A username must be 5-32 characters long, "
    ++ codes "start with a letter, use only letters, digits and underscores, and end in `bot`."

unfoldable pub bf_taken : Str
bf_taken = codes "Sorry, this username is already taken. Please try something different."

unfoldable pub bf_not_owned : Str
bf_not_owned =
    codes "You don't own a bot with that username. "
    ++ codes "Send the username of one of your bots."

-- The formatted replies.
unfoldable pub bf_created : Str → Str → Str
bf_created username token =
    codes "Done! Congratulations on your new bot. You will find it at t.me/"
    ++ username
    ++ codes ".\n\nUse this token to access the HTTP API:\n"
    ++ token
    ++ codes "\n\nKeep your token secure and store it safely, "
    ++ codes "it can be used by anyone to control your bot."

unfoldable pub bf_revoked : Str → Str → Str
bf_revoked username token =
    codes "Token revoked. The previous token has stopped working.\n\nNew token for @"
    ++ username
    ++ codes ":\n"
    ++ token

unfoldable pub bf_bots : List User → Str
bf_bots [] = []
bf_bots (bot ∷ bots) = codes "\n@" ++ bot.username ++ codes "\n" ++ bot.bot_token ++ bf_bots bots

unfoldable pub is_ascii_letter : ℕ → Bool
is_ascii_letter c = (leb b'a' c && leb c b'z') || (leb b'A' c && leb c b'Z')

unfoldable pub is_username_char : ℕ → Bool
unfolding is_ascii_letter
is_username_char c = is_ascii_letter c || (leb b'0' c && leb c b'9') || (c == b'_')

unfoldable pub all_username_chars : Str → Bool
unfolding is_username_char
all_username_chars [] = true
all_username_chars (c ∷ u) = if is_username_char c then all_username_chars u else false

-- u[0], for u that is not empty.
abbrev pub starts_with_letter : Str → Bool
starts_with_letter [] = false
starts_with_letter (c ∷ u) = is_ascii_letter c

-- strings.HasSuffix.
abbrev pub has_suffix : Str → Str → Bool
has_suffix s suffix =
    leb (length suffix) (length s) && str_eq (drop (length s - length suffix) s) suffix

unfoldable pub valid_bot_name : Str → Bool
valid_bot_name name =
    not (str_eq name []) && leb (length name) 64 && not (has_prefix name (codes "/"))

-- strings.IndexByte(head, '@'), and what stands before it.
unfoldable pub before_at : Str → Str
before_at [] = []
before_at (c ∷ s) = let rest = before_at s in if c == b'@' then [] else c ∷ rest

-- botCommand's command, none where the text is no command. A text without fields would panic.
pub data Command : Type 0 where
  command : Str → Command
  no_command : Command
  no_field : Command

unfoldable pub list_bots : User → Rpc (List Str)
unfolding bf_no_bots bf_bots
list_bots caller d = elim (bots_by_owner caller.id d) [
  | [] ↦ (reply (bf_no_bots ∷ []), d)
  | bot ∷ bots ↦ (reply ((codes "Here are your bots:\n" ++ bf_bots (bot ∷ bots)) ∷ []), d)
]

-- The reply, after a change of the caller's step.
abbrev pub step_to : User → BotFatherState → Str → Rpc (List Str)
step_to caller s text = save (set_bot_father_state caller.id s) >> return (text ∷ [])

unfoldable pub start_revoke : User → Rpc (List Str)
unfolding bf_no_bots bf_ask_revoke
start_revoke caller d = elim (bots_by_owner caller.id d) [
  | [] ↦ (reply (bf_no_bots ∷ []), d)
  | bot ∷ bots ↦ step_to caller (record { step = revoke_select; draft_name = [] }) bf_ask_revoke d
]

unfoldable pub cancel : User → Rpc (List Str)
unfolding bf_nothing_to_do bf_cancelled
cancel caller d = elim (bot_father_state caller.id d).step [
  | no_step ↦ (reply (bf_nothing_to_do ∷ []), d)
  | _ ↦ (save (clear_bot_father_state caller.id) >> return (bf_cancelled ∷ [])) d
]

unfoldable pub bot_father_command : User → Str → Rpc (List Str)
unfolding bf_intro bf_ask_name bf_not_understood list_bots start_revoke cancel
bot_father_command caller cmd =
    if str_eq cmd (codes "/start") || str_eq cmd (codes "/help")
    then return (bf_intro ∷ [])
    else if str_eq cmd (codes "/newbot")
    then step_to caller (record { step = new_bot_name; draft_name = [] }) bf_ask_name
    else if str_eq cmd (codes "/mybots") || str_eq cmd (codes "/token")
    then list_bots caller
    else if str_eq cmd (codes "/revoke")
    then start_revoke caller
    else if str_eq cmd (codes "/cancel")
    then cancel caller
    else return (bf_not_understood ∷ [])

unfoldable pub set_name : User → Str → Rpc (List Str)
unfolding valid_bot_name bf_bad_name bf_ask_username
set_name caller name =
    if valid_bot_name name
    then step_to caller (record { step = new_bot_username; draft_name = name }) bf_ask_username
    else return (bf_bad_name ∷ [])

-- What follows the checks of botFatherCreate.
unfoldable pub create_named : User → Str → Str → Str → Int64 → Time → Rpc (List Str)
unfolding bf_created
create_named caller name username secret raw now = do
  bot ← call (create_owned_bot username name caller.id secret raw now)
  save (clear_bot_father_state caller.id)
  return (bf_created bot.username bot.bot_token ∷ [])

-- What botFatherRevoke does with the bot that it found.
unfoldable pub revoke_token : User → User → Str → Rpc (List Str)
unfolding bf_revoked
revoke_token caller target secret =
    let token = format_int target.id ++ b':' ∷ secret in
    save (set_bot_token target.id token)
    >> save (clear_bot_father_state caller.id)
    >> return (bf_revoked target.username token ∷ [])

module _ (trim_space to_lower : Str → Str) (equal_fold : Str → Str → Bool)
    (fields : Str → List Str) where
  unfoldable pub valid_bot_username : Str → Bool
  unfolding is_ascii_letter all_username_chars
  valid_bot_username u =
      if ltb (length u) 5 || ltb 32 (length u)
      then false
      else if not (starts_with_letter u)
      then false
      else if not (all_username_chars u)
      then false
      else has_suffix (to_lower u) (codes "bot")

  unfoldable pub bot_command : Str → Command
  unfolding before_at
  bot_command text =
      if not (has_prefix text (codes "/"))
      then no_command
      else elim (fields text) [ [] ↦ no_field | head ∷ rest ↦ command (to_lower (before_at head)) ]

  unfoldable pub create : User → Str → Str → Str → Int64 → Time → Rpc (List Str)
  unfolding valid_bot_username bf_bad_username bf_taken create_named
  create caller name text secret raw now d =
      let username = trim_prefix text (codes "@") in
      if not (valid_bot_username username)
      then (reply (bf_bad_username ∷ []), d)
      else elim (user_by_username username d) [
        | some u ↦ (reply (bf_taken ∷ []), d)
        | none ↦ create_named caller name username secret raw now d
      ]

  unfoldable pub revoke : User → Str → Str → Rpc (List Str)
  unfolding bf_not_owned revoke_token
  revoke caller text secret d =
      let username = trim_prefix text (codes "@") in
      elim (find (λ u. equal_fold u.username username) (bots_by_owner caller.id d)) [
        | none ↦ (reply (bf_not_owned ∷ []), d)
        | some target ↦ revoke_token caller target secret d
      ]

  -- The switch on the step of the conversation.
  unfoldable pub by_step : User → Str → Str → Int64 → Time → Rpc (List Str)
  unfolding set_name create revoke bf_not_understood
  by_step caller text secret raw now d =
      let s = bot_father_state caller.id d in
      elim s.step [
        | new_bot_name ↦ set_name caller text d
        | new_bot_username ↦ create caller s.draft_name text secret raw now d
        | revoke_select ↦ revoke caller text secret d
        | no_step ↦ (reply (bf_not_understood ∷ []), d)
      ]

  -- The engine, for a text that has been trimmed.
  unfoldable pub answer : User → Str → Str → Int64 → Time → Rpc (List Str)
  unfolding bot_command bot_father_command by_step
  answer caller text secret raw now d = elim (bot_command text) [
    | command cmd ↦ bot_father_command caller cmd d
    | no_field ↦ (crash, d)
    | no_command ↦ by_step caller text secret raw now d
  ]

  unfoldable pub bot_father_engine : User → Str → Str → Int64 → Time → Rpc (List Str)
  unfolding answer
  bot_father_engine caller message secret raw now =
      answer caller (trim_space message) secret raw now
