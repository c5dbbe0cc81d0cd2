-- ===== src/Documents/Examples.antt =====
-- Concrete documents.
use get_modular.Base.{ℕ, ◌≤◌, ◌≡◌, ◌↔◌, refl, List, [], ◌∷◌, ◌++◌, none, true, length, Text}
use get_modular.Base.Outcome.{done}
use get_modular.Scanner.Strings.{RawToken}
use get_modular.Scanner.Cursor.{open_cursor}
use get_modular.Documents.Types.{RawDocumentBudget, Segment, member, position, RawDocumentScan}
use get_modular.Documents.Scan.{scan_raw_document}
use get_modular.Documents.Charges.{WithinBudget}
use get_modular.Documents.Total.{scan_raw_document_lem}
use get_modular.Documents.Grammar.{IsDocument}
use get_modular.Documents.Language.{Delivers, scan_raw_document-IsDocument}
use get_modular.Documents.Identities.{is_portable_id_format}
use get_modular.Documents.Identities.Words.{IsPortableId, is_portable_id_format_iff}
use get_modular.Documents.Paths.{
  declaration, prefix, document_path, AllSmall, CutAt, document_path_lem,
}

-- {"a":[1,2]}
abbrev sample : List ℕ
sample = 0x7b ∷ 0x22 ∷ 0x61 ∷ 0x22 ∷ 0x3a ∷ 0x5b ∷ 0x31 ∷ 0x2c ∷ 0x32 ∷ 0x5d ∷ 0x7d ∷ []

abbrev small_budget : RawDocumentBudget
small_budget = record { values_remaining = 4; string_bytes_remaining = 1 }

scan_raw_document_lem_example :
    (r : RawDocumentScan) × (scan_raw_document sample small_budget ≡ done r)
    × WithinBudget small_budget r.stopped_by r.value_occurrences r.string_bytes r.maximum_depth
scan_raw_document_lem_example = scan_raw_document_lem sample small_budget

scan_raw_document-IsDocument_example :
    (r : RawDocumentScan) × (scan_raw_document sample small_budget ≡ done r)
    × ((ts : List RawToken) × Delivers sample open_cursor ts
        × (r.stopped_by ≡ none → (r.decoded ≡ true) ↔ IsDocument sample ts))
scan_raw_document-IsDocument_example = scan_raw_document-IsDocument sample small_budget

-- "a/b-1" and "b-1"
abbrev identity : Text
identity = 97 ∷ 47 ∷ 98 ∷ 45 ∷ 49 ∷ []

abbrev word : Text
word = 98 ∷ 45 ∷ 49 ∷ []

identity_fits : is_portable_id_format identity ≡ true
unfolding is_portable_id_format
identity_fits = refl

is_portable_id_format_iff_example : (is_portable_id_format identity ≡ true) ↔ IsPortableId identity
is_portable_id_format_iff_example = is_portable_id_format_iff identity

abbrev large_index : List Segment
large_index = member word ∷ position 65536 ∷ member word ∷ []

large_index_cut :
    document_path (declaration 3) large_index ≡ prefix (declaration 3) ++ member word ∷ []
unfolding document_path
large_index_cut = refl

document_path_lem_example :
    (cut : List Segment) × (prefix (declaration 3) ++ large_index
      ≡ document_path (declaration 3) large_index ++ cut)
    × (length (document_path (declaration 3) large_index) ≤ 32)
    × AllSmall (document_path (declaration 3) large_index)
    × CutAt 32 (document_path (declaration 3) large_index) cut
document_path_lem_example = document_path_lem (declaration 3) large_index
