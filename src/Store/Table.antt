-- ===== src/Store/Table.antt =====
-- The messages of the channels as the history query of the client sees them.
use munichat.Prelude.{
  ℕ, ◌≡◌, Bool, true, Option, none, some, List, [], ◌∷◌, ◌||◌, ◌&&◌, ltb, ◌==◌, keep, take, All,
}
use munichat.Text.{Text}
use munichat.Store.Rows.{Message}

-- The position of a row in a channel's history.
pub record CursorKey : Type 0 where
  pub created_at : ℕ
  pub id : Text

-- What `decodeCursor` makes of a text: an invalid date and a missing part are `none`.
pub record DecodedCursor : Type 0 where
  pub created_at : Option ℕ
  pub id : Option Text

abbrev pub decoded : CursorKey → DecodedCursor
decoded key = record { created_at = some key.created_at; id = some key.id }

abbrev pub key_of : Message → CursorKey
key_of m = record { created_at = m.row.created_at; id = m.row.id }

-- `(createdAt, id) < key`, in the order `id_lt` in which the database compares identifiers.
abbrev pub is_before : (Text → Text → Bool) → CursorKey → Message → Bool
is_before id_lt key m =
    ltb m.row.created_at key.created_at
    || m.row.created_at == key.created_at && id_lt m.row.id key.id

-- The optional `OR` of the history query.
abbrev pub in_window : (Text → Text → Bool) → Option CursorKey → Message → Bool
in_window id_lt none m = true
in_window id_lt (some key) m = is_before id_lt key m

-- `orderBy: [{ createdAt: 'desc' }, { id: 'desc' }]`
abbrev pub IsNewestFirst : (Text → Text → Bool) → List Message → Type 0
IsNewestFirst id_lt [] = Unit
IsNewestFirst id_lt (m ∷ older) =
    All (λ o. is_before id_lt (key_of m) o ≡ true) older × IsNewestFirst id_lt older

pub record MessageTable : Type 1 where
  pub State : Type 0
  pub id_lt : Text → Text → Bool
  -- all messages of a channel, in the order of the query
  pub messages : State → Text → List Message
  -- `message.findMany` with the window, the order and the `take` of the history query; `none` is a
  -- rejected promise, as for an invalid date
  pub find_many : State → Text → Option DecodedCursor → ℕ → Option (List Message)
  pub id_lt_asymm : (a b : Text) → id_lt a b ≡ true → id_lt b a ≡ true → ⊥
  pub messages_order : (s : State) (channel : Text) → IsNewestFirst id_lt (messages s channel)
  pub find_many_newest :
      (s : State) (channel : Text) (n : ℕ)
      → find_many s channel none n ≡ some (take n (messages s channel))
  pub find_many_before :
      (s : State) (channel : Text) (key : CursorKey) (n : ℕ)
      → find_many s channel (some (decoded key)) n
        ≡ some (take n (keep (in_window id_lt (some key)) (messages s channel)))
