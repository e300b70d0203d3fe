-- ===== src/Classifier/Profile.antt =====
-- control-plane/app/services/classification_profile.py. A dict is the list of its items, in order;
-- a delimiter is a text that is not empty; the path template is the list of pieces that
-- `str.format` finds in it, without format specifications.
use multi_tenant_file_delive.Prelude.{ℕ, String, Bool, Option, List}
use multi_tenant_file_delive.Text.{Text}

pub record TargetConfig : Type 0 where
  pub key : Text
  pub aliases : List Text
  pub strip_number_prefix : Bool

pub record DocumentTypeConfig : Type 0 where
  pub category : Text

pub record MatchingConfig : Type 0 where
  pub enable_fuzzy_match : Bool
  pub fuzzy_threshold : ℕ
  pub description_fuzzy_threshold : ℕ

pub record EntryFilterConfig : Type 0 where
  pub ignored_filenames : List Text
  pub ignored_prefixes : List Text

-- The first character of a delimiter, and the others.
abbrev pub Delimiter : Type 0
Delimiter = ℕ × Text

pub record TargetExtractionConfig : Type 0 where
  pub strategy : String
  pub delimiters : List Delimiter
  pub broadcast_target : Option Text

pub data Piece : Type 0 where
  lit : Text → Piece
  category document_type filename : Piece

pub record ProfileConfig : Type 0 where
  pub version : Text
  pub targets : List TargetConfig
  pub document_types : List (Text × DocumentTypeConfig)
  pub suffix_priority : List (Text × Text)
  pub description_mapping : List (Text × Text)
  pub suffix_fallback : List (Text × Text)
  pub entry_filters : EntryFilterConfig
  pub path_template : List Piece
  pub matching_config : MatchingConfig
  pub target_extraction : TargetExtractionConfig
