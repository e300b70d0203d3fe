-- ===== src/Classifier/Python.antt =====
-- What the classifier takes from tables of Python that the program does not hold: the letter case
-- and the digits of Unicode, the GBK codec, and the similarity ratio of `difflib` with its floats.
use multi_tenant_file_delive.Prelude.{ℕ, Bool, Option}
use multi_tenant_file_delive.Text.{Text}

pub record Python : Type 1 where
  -- `s.lower()`
  pub lower : Text → Text
  -- `\d` of `re`
  pub is_digit : ℕ → Bool
  -- `raw.decode("gbk")` of the bytes `raw`; `none` is the UnicodeDecodeError
  pub decode_gbk : Text → Option Text
  -- the float `SequenceMatcher(None, a, b).ratio() * 100`, its tests and `int`
  pub Score : Type 0
  pub zero_score : Score
  pub ratio : Text → Text → Score
  pub exceeds : Score → Score → Bool
  pub reaches : Score → ℕ → Bool
  pub to_int : Score → ℕ
