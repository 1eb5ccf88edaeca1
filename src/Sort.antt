-- ===== src/Sort.antt =====
-- src/edit/sort.rs: the key that a text is sorted by, and the letter it is found under. A text is its
-- UTF-8 bytes. What the Unicode tables say is a parameter.
use libopod.Base.{ℕ, Bool, false, ◌&&◌, ◌||◌, List, [], ◌∷◌}
use libopod.Base.Tests.{ltb, leb, ◌==◌, if◌then◌else◌}
use libopod.Base.Lists.{length, take, drop}
use libopod.Cdb.Chunk.{eq_bytes}

abbrev pub Text : Type 0
Text = List ℕ

-- `str::to_lowercase`, `str::trim_start`, `str::chars`, the NFC form in lower case, and of a
-- character whether it is alphanumeric and the first one of its upper case
pub record Unicode : Type 0 where
  pub to_lowercase : Text → Text
  pub trim_start : Text → Text
  pub lower_nfc : Text → Text
  pub chars : Text → List ℕ
  pub is_alphanumeric : ℕ → Bool
  pub first_uppercase : ℕ → ℕ

abbrev starts_with : Text → Text → Bool
starts_with text prefix = eq_bytes (take (length prefix) text) prefix

-- `text.starts_with(['a', 'A', 't', 'T'])`
abbrev may_have_article : Text → Bool
may_have_article [] = false
may_have_article (c ∷ cs) = c == b'a' || c == b'A' || c == b't' || c == b'T'

abbrev articles : List Text
articles = (b'a' ∷ 0x20 ∷ []) ∷ (b'a' ∷ b'n' ∷ 0x20 ∷ []) ∷ (b't' ∷ b'h' ∷ b'e' ∷ 0x20 ∷ []) ∷ []

module _ (u : Unicode) where
  abbrev strip_first : Text → Text → List Text → Text
  strip_first text lower [] = text
  strip_first text lower (article ∷ rest) =
      if starts_with lower article
      then u.trim_start (drop (length article) text)
      else strip_first text lower rest

  unfoldable pub strip_article : Text → Text
  strip_article text =
      if may_have_article text then strip_first text (u.to_lowercase text) articles else text

  unfoldable pub sort_key : Text → Text
  unfolding strip_article
  sort_key text = u.lower_nfc (strip_article text)

  -- the letter of a character that is alphanumeric
  abbrev letter_of : ℕ → ℕ
  letter_of c =
      if leb b'0' c && leb c b'9'
      then b'0'
      else if ltb (u.first_uppercase c) 0x10000
      then u.first_uppercase c
      else b'0'

  abbrev first_letter : List ℕ → ℕ
  first_letter [] = b'0'
  first_letter (c ∷ cs) = if u.is_alphanumeric c then letter_of c else first_letter cs

  unfoldable pub jump_letter : Text → ℕ
  jump_letter text = first_letter (u.chars text)
