-- ===== src/Adapter/Chat.antt =====
-- internal/adapter/openaicompat/openaicompat.go: the messages of a request and the reading of its event
-- stream. `J` is a decoded chunk's list of texts, `decode` the decoding of JSON, a text is a list of
-- bytes.
use Prim.Native.String.{String}
use text.Mathlib.Text.{◌==◌ as str_eq}
use voice_flux_engine.Prelude.{
  ℕ, ◌≡◌, refl, ap, ap₂, ◌∙◌, if◌then◌else◌, if-false, Bool, true, false, Option, none, some, List,
  [], ◌∷◌, ◌++◌, length, drop,
}
use voice_flux_engine.Prelude.Bytes.{bytes_eq, has_prefix, trim_left, trim_right, trim_space}
use voice_flux_engine.Adapter.{Role, system, user, Message, Turn}

pub data ChatError : Type 0 where
  bad_chunk ctx_error read_error : ChatError

abbrev pub message : Role → String → Message
message role text = record { role = role; text = text }

-- the messages of a request
unfoldable pub chat_messages : (system_prompt : String) → Turn → List Message
chat_messages system_prompt turn =
    (if str_eq system_prompt "" then [] else message system system_prompt ∷ [])
    ++ (turn.history ++ message user turn.prompt ∷ [])

-- The word that opens a line of data.
abbrev pub data_field : List ℕ
data_field = b'd' ∷ b'a' ∷ b't' ∷ b'a' ∷ b':' ∷ []

-- The data of the last line of a stream.
abbrev pub done_mark : List ℕ
done_mark = b'[' ∷ b'D' ∷ b'O' ∷ b'N' ∷ b'E' ∷ b']' ∷ []

-- What a line of the stream is: none of the data, its end, or a chunk.
pub data Line : Type 0 where
  other stop : Line
  chunk : List ℕ → Line

unfoldable pub read_line : List ℕ → Line
read_line line =
    if has_prefix line data_field
    then (let field = trim_space (drop (length data_field) line) in
        if bytes_eq field done_mark then stop else chunk field)
    else other

-- the text of a decoded chunk that is sent
abbrev pub first_text : List (List ℕ) → Option (List ℕ)
first_text [] = none
first_text ([] ∷ choices) = none
first_text ((c ∷ cs) ∷ choices) = some (c ∷ cs)

abbrev pub end_error : Option Bool → Option ChatError
end_error none = none
end_error (some true) = some ctx_error
end_error (some false) = some read_error

-- what the stream gives: the tokens sent and the error
abbrev pub Given : Type 0
Given = List (List ℕ) × Option ChatError

abbrev pub on_text : Option (List ℕ) → Given → Given
on_text none more = more
on_text (some t) (ts, end) = (t ∷ ts, end)

abbrev pub on_decoded : Option (List (List ℕ)) → Given → Given
on_decoded none more = ([], some bad_chunk)
on_decoded (some choices) more = on_text (first_text choices) more

-- The loop over the lines of the body when no send is cancelled. The lines end with the body's end or
-- with its failure, when `failed` says whether the context has ended.
module _ (decode : List ℕ → Option (List (List ℕ))) where
  -- a line, and what the lines after it give
  abbrev pub on_line : Line → Given → Given
  on_line other more = more
  on_line stop more = ([], none)
  on_line (chunk field) more = on_decoded (decode field) more

  unfoldable pub read_stream : (failed : Option Bool) → List (List ℕ) → Given
  read_stream failed [] = ([], end_error failed)
  read_stream failed (line ∷ lines) = on_line (read_line line) (read_stream failed lines)

-- A line of the stream that carries a field.
abbrev pub data_line : List ℕ → List ℕ
data_line field = data_field ++ 32 ∷ field

-- Lines that carry the texts: each in a chunk of its own, between lines without data and chunks
-- without a text.
pub data Carries (decode : List ℕ → Option (List (List ℕ)))
    : List (List ℕ) → List (List ℕ) → Type 0 where
  nothing_more : Carries decode [] []
  quiet :
      {line : List ℕ} {lines texts : List (List ℕ)}
      → has_prefix line data_field ≡ false
      → Carries decode lines texts
      → Carries decode (line ∷ lines) texts
  empty :
      {field : List ℕ} {choices lines texts : List (List ℕ)}
      → bytes_eq (trim_space field) done_mark ≡ false
      → decode (trim_space field) ≡ some choices
      → first_text choices ≡ none
      → Carries decode lines texts
      → Carries decode (data_line field ∷ lines) texts
  worded :
      {field t : List ℕ} {choices lines texts : List (List ℕ)}
      → bytes_eq (trim_space field) done_mark ≡ false
      → decode (trim_space field) ≡ some choices
      → first_text choices ≡ some t
      → Carries decode lines texts
      → Carries decode (data_line field ∷ lines) (t ∷ texts)

read_line-quiet : (line : List ℕ) → has_prefix line data_field ≡ false → read_line line ≡ other
unfolding read_line
read_line-quiet line h = if-false _ _ h

read_line-data :
    (field : List ℕ)
    → bytes_eq (trim_space field) done_mark ≡ false
    → read_line (data_line field) ≡ chunk (trim_space field)
unfolding read_line trim_left
read_line-data field h = if-false _ _ h

read_line-done : read_line (data_line done_mark) ≡ stop
unfolding read_line trim_left trim_right
read_line-done = refl

module _ (decode : List ℕ → Option (List (List ℕ))) where
  -- A stream that carries some texts before its end mark gives them as tokens, in order, and no
  -- error; what follows the mark, and how the connection ends, does not matter.
  pub read_stream-texts :
      (failed : Option Bool) {lines texts : List (List ℕ)} (rest : List (List ℕ))
      → Carries decode lines texts
      → read_stream decode failed (lines ++ data_line done_mark ∷ rest) ≡ (texts, none)
  unfolding read_stream
  read_stream-texts failed rest nothing_more =
      ap (λ l. on_line decode l (read_stream decode failed rest)) read_line-done
  read_stream-texts failed rest (quiet {line = line} q c) =
      ap₂ (on_line decode) (read_line-quiet line q) (read_stream-texts failed rest c)
  read_stream-texts failed rest (empty {field = field} {texts = texts} a d e c) =
      ap₂ (on_line decode) (read_line-data field a) (read_stream-texts failed rest c)
      ∙ ap (λ o. on_decoded o (texts, none)) d
      ∙ ap (λ o. on_text o (texts, none)) e
  read_stream-texts failed rest (worded {field = field} {texts = texts} a d e c) =
      ap₂ (on_line decode) (read_line-data field a) (read_stream-texts failed rest c)
      ∙ ap (λ o. on_decoded o (texts, none)) d
      ∙ ap (λ o. on_text o (texts, none)) e
