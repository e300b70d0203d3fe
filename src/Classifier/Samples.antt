-- ===== src/Classifier/Samples.antt =====
-- Test data for the classifier: ASCII letters and digits, a similarity of 0 or 100, a profile like
-- the one of the tests, and archives.
use multi_tenant_file_delive.Prelude.{
  ℕ, ◌+◌, ◌&&◌, true, false, none, some, List, [], ◌∷◌, map, ◌==◌, text_eq, leb, ltb, if◌then◌else◌,
}
use multi_tenant_file_delive.Text.{text}
use multi_tenant_file_delive.Classifier.Profile.{
  ProfileConfig, TargetConfig, lit, category, document_type, filename,
}
use multi_tenant_file_delive.Classifier.Python.{Python}
use multi_tenant_file_delive.Classifier.Item.{ZipInfo}

abbrev lower_char : ℕ → ℕ
lower_char c = if leb b'A' c && leb c b'Z' then c + 32 else c

abbrev pub ascii : Python
ascii = record {
  lower = map lower_char;
  is_digit = λ c. leb b'0' c && leb c b'9';
  decode_gbk = λ raw. some raw;
  Score = ℕ;
  zero_score = 0;
  ratio = λ keyword s. if keyword == s then 100 else 0;
  exceeds = λ a b. ltb b a;
  reaches = λ a threshold. leb threshold a;
  to_int = λ a. a;
}

abbrev acme : TargetConfig
acme = record { key = text "acme"; aliases = text "Acme Corp" ∷ []; strip_number_prefix = false }

abbrev globex : TargetConfig
globex = record { key = text "12. Globex"; aliases = []; strip_number_prefix = true }

abbrev pub profile : ProfileConfig
profile = record {
  version = text "1";
  targets = acme ∷ globex ∷ [];
  document_types = (text "report", record { category = text "finance" }) ∷ [];
  suffix_priority = (text ".xlsx", text "report") ∷ [];
  description_mapping = (text "orders", text "report") ∷ [];
  suffix_fallback = [];
  entry_filters = record {
    ignored_filenames = text ".DS_Store" ∷ [];
    ignored_prefixes = text "__MACOSX" ∷ [];
  };
  path_template = category ∷ lit (text "/") ∷ document_type ∷ lit (text "/") ∷ filename ∷ [];
  matching_config = record {
    enable_fuzzy_match = true;
    fuzzy_threshold = 70;
    description_fuzzy_threshold = 70;
  };
  target_extraction = record {
    strategy = "directory_or_filename";
    delimiters = (b'-', []) ∷ [];
    broadcast_target = none;
  };
}

abbrev pub good : ZipInfo
good = record { filename = text "ACME/Q1.XLSX"; file_size = 10 }

abbrev pub at_root : ZipInfo
at_root = record { filename = text "orders - globex.txt"; file_size = 20 }

abbrev pub untyped : ZipInfo
untyped = record { filename = text "acme/notes.txt"; file_size = 3 }

abbrev pub upwards : ZipInfo
upwards = record { filename = text "acme/../etc"; file_size = 1 }

abbrev pub stranger : ZipInfo
stranger = record { filename = text "nobody/x.xlsx"; file_size = 5 }

abbrev pub ds_store : ZipInfo
ds_store = record { filename = text "acme/.DS_Store"; file_size = 6 }

abbrev pub directory : ZipInfo
directory = record { filename = text "acme/"; file_size = 0 }

abbrev pub archive : List ZipInfo
archive = directory ∷ good ∷ at_root ∷ untyped ∷ upwards ∷ stranger ∷ ds_store ∷ []
