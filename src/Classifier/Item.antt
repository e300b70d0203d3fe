-- ===== src/Classifier/Item.antt =====
-- What the classifier returns: `ClassifiedItem` and `ClassifySummary` of
-- control-plane/app/services/classifier.py.
use multi_tenant_file_delive.Prelude.{
  ℕ, String, Bool, false, Option, none, List, [], ◌∷◌, ◌++◌, text_eq, contains, if◌then◌else◌,
}
use multi_tenant_file_delive.Text.{Text}

-- An entry of the archive's directory, `zipfile.ZipInfo`.
pub record ZipInfo : Type 0 where
  pub filename : Text
  pub file_size : ℕ

pub data Severity : Type 0 where
  ok warning error ignored : Severity

pub record ClassifiedItem : Type 0 where
  pub src_path : Text
  pub filename : Text
  pub ext : Text
  pub file_size : ℕ
  pub target_name_raw : Text
  pub target_name_matched : Option Text
  pub document_type : Text
  pub category_name : Text
  pub dst_dir : Text
  pub dst_path : Text
  pub target_match_method : String
  pub document_match_method : String
  pub match_score : ℕ
  pub mapping_source : Text
  pub severity : Severity
  pub error_code : String
  pub error_message : Text
  pub warning_message : Text

-- An item with the defaults of the dataclass.
abbrev pub plain_item : Text → Text → ClassifiedItem
plain_item src_path filename = record {
  src_path = src_path;
  filename = filename;
  ext = [];
  file_size = 0;
  target_name_raw = [];
  target_name_matched = none;
  document_type = [];
  category_name = [];
  dst_dir = [];
  dst_path = [];
  target_match_method = "";
  document_match_method = "";
  match_score = 0;
  mapping_source = [];
  severity = ok;
  error_code = "";
  error_message = [];
  warning_message = [];
}

-- `targets_involved` is a set: a list that `add` keeps free of repetitions.
pub record ClassifySummary : Type 0 where
  pub total : ℕ
  pub ok : ℕ
  pub warning : ℕ
  pub error : ℕ
  pub ignored : ℕ
  pub unmatched_targets : ℕ
  pub unmatched_document_types : ℕ
  pub targets_involved : List Text
  pub has_blocking_errors : Bool

abbrev pub empty_summary : ClassifySummary
empty_summary = record {
  total = 0;
  ok = 0;
  warning = 0;
  error = 0;
  ignored = 0;
  unmatched_targets = 0;
  unmatched_document_types = 0;
  targets_involved = [];
  has_blocking_errors = false;
}

-- `set.add`
unfoldable pub add : Text → List Text → List Text
add t targets = if contains t targets then targets else targets ++ t ∷ []

-- The two variables of the loop.
pub record Progress : Type 0 where
  pub items : List ClassifiedItem
  pub summary : ClassifySummary

abbrev pub start : Progress
start = record { items = []; summary = empty_summary }
