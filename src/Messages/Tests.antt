-- ===== src/Messages/Tests.antt =====
-- A channel of three messages and cursors in plain text: the theorems on histories at a concrete input.
use munichat.Prelude.{
  ℕ, zero, suc, ◌≡◌, ◌≢◌, refl, ap, Bool, true, false, ◌==◌, Option, none, some, List, [], ◌∷◌,
  arith, ltb, take, keep, length, length-replicate, replicate, reverse, All,
}
use munichat.Text.{Text, lit}
use munichat.Store.{Message, User}
use munichat.Shared.{MessageType}
use munichat.Store.Table.{DecodedCursor, MessageTable, IsNewestFirst, in_window, decoded}
use munichat.Messages.History.{Codec, encode_cursor, decode_cursor}
use munichat.Store.Memory.{Memory, memory}
use munichat.Shared.{PendingAttachment}
use munichat.Server.{World, Result, ok, ◌>>=◌, unreachable}
use munichat.Messages.{CreateMessageInput, CreateMessageResult, created, create, ticket_description}
use munichat.Messages.Creation.{create_checked}
use munichat.Messages.History.Window.{decode-encode}
use munichat.Messages.History.Paging.{scroll, scroll_shows_everything}

pub ones_have_no_underscore : (t : ℕ) → All (λ (c : ℕ). c ≢ b'_') (replicate t b'1')
ones_have_no_underscore zero = tt
ones_have_no_underscore (suc t) = (ground arith, ones_have_no_underscore t)

abbrev pub codec : Codec
codec = record {
  to_iso_string = λ t. replicate t b'1';
  parse_date = λ t. some (length t);
  to_base64 = λ t. t;
  from_base64 = λ t. t;
  parse_iso = λ t. ap some (length-replicate t b'1');
  iso_has_no_underscore = ones_have_no_underscore;
  from_to_base64 = λ t. refl;
  base64_not_empty = λ c t. refl;
}

abbrev shorter : Text → Text → Bool
shorter a b = ltb (length a) (length b)

shorter_asymm : (a b : Text) → shorter a b ≡ true → shorter b a ≡ true → ⊥
shorter_asymm a b h k = ground arith

abbrev found : List Message → Option DecodedCursor → ℕ → Option (List Message)
found ms none n = some (take n ms)
found ms (some d) n = elim d.created_at [
  | none ↦ none
  | some at ↦ elim d.id [
    | none ↦ none
    | some id ↦
        some (take n (keep (in_window shorter (some (record { created_at = at; id = id }))) ms))
  ]
]

-- A database whose only channel has these messages.
abbrev table : MessageTable
table = record {
  State = (ms : List Message) × IsNewestFirst shorter ms;
  id_lt = shorter;
  messages = λ s channel. s.0;
  find_many = λ s channel cursor n. found s.0 cursor n;
  id_lt_asymm = shorter_asymm;
  messages_order = λ s channel. s.1;
  find_many_newest = λ s channel n. refl;
  find_many_before = λ s channel key n. refl;
}

abbrev ann : User
ann = record {
  id = lit "u1";
  username = lit "ann";
  display_name = lit "Ann";
  avatar_url = none;
  is_active = true;
  token_version = 0;
}

abbrev said : Text → ℕ → Message
said id at = record {
  row = record {
    id = id;
    channel_id = lit "ti";
    author_id = lit "u1";
    content = id;
    type = MessageType.text;
    reply_to_id = none;
    edited_at = none;
    deleted_at = none;
    created_at = at;
  };
  extras = record {
    author = ann;
    attachments = [];
    link_preview = none;
    ticket_ref = none;
    reply_to = none;
  };
}

abbrev history : List Message
history = said (lit "ccc") 5 ∷ said (lit "bb") 5 ∷ said (lit "a") 3 ∷ []

abbrev state : table.State
state = (history, ((refl, (refl, tt)), ((refl, tt), (tt, tt))))

other : (c : ℕ) → (c == b'_') ≡ false → c ≢ b'_'
other c h e = ground (arith, h, e)

clean : All (λ m. All (λ (c : ℕ). c ≢ b'_') m.row.id) history
clean = (
  (other b'c' refl, (other b'c' refl, (other b'c' refl, tt))),
  ((other b'b' refl, (other b'b' refl, tt)), ((other b'a' refl, tt), tt)),
)

scroll_shows_everything_example :
    scroll codec table 4 state (lit "ti") 2 none ≡ some (reverse history)
scroll_shows_everything_example =
    scroll_shows_everything codec table state (lit "ti") 2 (omega arith) clean

decode-encode_example :
    decode_cursor codec (encode_cursor codec (record { created_at = 3; id = lit "a" }))
    ≡ decoded (record { created_at = 3; id = lit "a" })
decode-encode_example =
    decode-encode codec (record { created_at = 3; id = lit "a" }) (other b'a' refl, tt)

abbrev stored : Memory
stored = record {
  rows = λ id. none;
  members = λ u c. none;
  user = ann;
  next = 4;
  alerts = λ id. none;
  tickets = λ id. none;
  previews = λ id. none;
}

abbrev world : World Memory
world = record {
  db = stored;
  emitted = [];
  jobs = [];
  requests = [];
  replies = unreachable ∷ [];
  session_token = some (lit "t");
  now = 8;
}

abbrev picture : PendingAttachment
picture = record {
  object_key = lit "k";
  file_name = lit "p.png";
  mime_type = lit "image/png";
  size_bytes = 3;
}

abbrev sent : Text → List PendingAttachment → CreateMessageInput
sent content attachments = record {
  channel_id = lit "ti";
  author_id = lit "u1";
  content = content;
  reply_to_id = none;
  attachments = attachments;
}

abbrev sizes : Text → Option ℕ
sizes key = some 3

abbrev message_of : Result CreateMessageResult → Message
message_of (ok (created m)) = m
message_of _ = said [] 0

abbrev made : Result CreateMessageResult × World Memory
made = create memory sizes (sent (lit "look") (picture ∷ [])) world

create_checked_example : All (λ a. sizes a.object_key ≡ some a.size_bytes) (picture ∷ [])
unfolding create ticket_description ◌>>=◌
create_checked_example =
    create_checked memory sizes (sent (lit "look") (picture ∷ [])) world made.1 (message_of made.0)
      refl refl
