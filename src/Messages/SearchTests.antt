-- ===== src/Messages/SearchTests.antt =====
-- A search on the database in memory, whose query looks at one message.
use munichat.Prelude.{
  ◌≡◌, refl, ap, ◌∙◌, true, false, Option, none, some, List, [], ◌∷◌, length, if◌then◌else◌, All,
  Bool-cases, inl, inr,
}
use munichat.Text.{Text, lit, text_eq}
use munichat.Text.Laws.{text_eq_iff}
use munichat.Shared.{MessageDto, MessageType, MemberRole}
use munichat.Store.{MessageRow, Message, User, ChannelMember, hydrated, Channel}
use munichat.Store.Memory.{Memory, memory}
use munichat.Server.{Result, ok, thrown, http}
use munichat.Channels.{is_member, list_for_user}
use munichat.Messages.Mapper.{Env}
use munichat.Messages.Search.{SearchTable, MessagesResponse, search_handler}
use munichat.Messages.Search.Scope.{search_handler-IsOwn}
use munichat.Messages.Tests.{codec}

abbrev the_id : Text
the_id = lit "m1"

abbrev stored : Option MessageRow → List MessageRow
stored none = []
stored (some r) = if text_eq r.id the_id then r ∷ [] else []

abbrev rows_of : Memory → Option MessageRow → List Message
rows_of s none = []
rows_of s (some r) = if text_eq r.id the_id then hydrated memory s r ∷ [] else []

stored_found :
    (s : Memory) (o : Option MessageRow)
    → s.rows the_id ≡ o
    → All (λ (r : MessageRow). s.rows r.id ≡ some r) (stored o)
stored_found s none e = tt
stored_found s (some r) e = elim (Bool-cases (text_eq r.id the_id)) [
  | inl same ↦ rw (same, stored) (ap s.rows ((text_eq_iff r.id the_id).0 same) ∙ e, tt)
  | inr other ↦ rw (other, stored) tt
]

rows_found :
    (s : Memory) (o : Option MessageRow)
    → s.rows the_id ≡ o
    → All (λ (m : Message). s.rows m.row.id ≡ some m.row) (rows_of s o)
unfolding hydrated
rows_found s none e = tt
rows_found s (some r) e = elim (Bool-cases (text_eq r.id the_id)) [
  | inl same ↦ rw (same, rows_of) (ap s.rows ((text_eq_iff r.id the_id).0 same) ∙ e, tt)
  | inr other ↦ rw (other, rows_of) tt
]

none_listed :
    (s : Memory) (user : Text)
    → All (λ (c : Channel). is_member memory s user c.id ≡ true) (list_for_user memory s user)
unfolding list_for_user
none_listed s user = tt

abbrev table : SearchTable memory
table = record {
  all_rows = λ s. stored (s.rows the_id);
  is_match = λ content q. text_eq content q;
  id_lt = λ a b. false;
  refuses = λ s cursor. false;
  find_in = λ s ids. rows_of s (s.rows the_id);
  all_rows_stored = λ s. stored_found s (s.rows the_id) refl;
  find_in_rows = λ s ids. rows_found s (s.rows the_id) refl;
  memberships_found = none_listed;
}

abbrev ann : User
ann = record {
  id = lit "u1";
  username = lit "ann";
  display_name = lit "Ann";
  avatar_url = none;
  is_active = true;
  token_version = 0;
}

abbrev hello : MessageRow
hello = record {
  id = lit "m1";
  channel_id = lit "ti";
  author_id = lit "u1";
  content = lit "hello";
  type = MessageType.text;
  reply_to_id = none;
  edited_at = none;
  deleted_at = none;
  created_at = 5;
}

abbrev membership : ChannelMember
membership = record {
  user_id = lit "u1";
  channel_id = lit "ti";
  role = MemberRole.member;
  last_read_message_id = none;
  last_read_at = none;
}

abbrev state : Memory
state = record {
  rows = λ id. if text_eq id (lit "m1") then some hello else none;
  members = λ u c. if text_eq c (lit "ti") then some membership else none;
  user = ann;
  next = 2;
  alerts = λ id. none;
  tickets = λ id. none;
  previews = λ id. none;
}

abbrev env : Env
env = record { glpi_url = lit "https://glpi"; to_iso_string = λ t. [] }

abbrev answer : Result MessagesResponse
answer =
    search_handler memory table codec env state (lit "u1") (lit "hello") (some (lit "ti")) none 50

abbrev shown : MessagesResponse
shown = elim answer [ thrown e ↦ record { messages = []; next_cursor = none } | ok r ↦ r ]

-- The message is found.
one_is_shown : length shown.messages ≡ 1
unfolding search_handler hydrated
one_is_shown = refl

search_handler-IsOwn_example :
    All (λ (d : MessageDto). is_member memory state (lit "u1") d.channel_id ≡ true) shown.messages
unfolding search_handler
search_handler-IsOwn_example =
    search_handler-IsOwn memory table codec state (lit "u1") env (lit "hello") (some (lit "ti"))
      none 50 shown refl

others_are_refused :
    search_handler memory table codec env state (lit "u1") (lit "hello") (some (lit "rh")) none 50
    ≡ thrown (http 403 "You are not a member of this channel")
unfolding search_handler
others_are_refused = refl
