-- ===== src/Canonical/Fingerprint.antt =====
-- `unit_fingerprint` and `address_fingerprint` of canonical/normalization.py, on the code points of a
-- text of ASCII characters.
use nyc_rental_listing_agent.Base.{
  ℕ, ◌≡◌, refl, Bool, true, false, ◌||◌, not, none, some, List, [], ◌∷◌, ◌++◌, map, ◌==◌,
  if◌then◌else◌,
}
use nyc_rental_listing_agent.Base.Table.{select}
use nyc_rental_listing_agent.Base.Text.{
  codes, to_upper, to_lower, is_space, is_word, same_text, skip_spaces, strip, after_prefix,
}

-- The alternatives `APT|UNIT|STE|SUITE|NO`, in their order.
abbrev pub unit_labels : List (List ℕ)
unit_labels = codes "APT" ∷ codes "UNIT" ∷ codes "STE" ∷ codes "SUITE" ∷ codes "NO" ∷ []

-- `\.?`
abbrev pub skip_dot : List ℕ → List ℕ
skip_dot [] = []
skip_dot (c ∷ s) = if c == b'.' then s else c ∷ s

-- `re.sub(r"^(APT|UNIT|STE|SUITE|NO)\.?\s*", "", text)`
unfoldable pub drop_label : List (List ℕ) → List ℕ → List ℕ
unfolding after_prefix skip_spaces
drop_label [] s = s
drop_label (label ∷ labels) s =
    let others = drop_label labels s in
    elim (after_prefix label s) [ none ↦ others | some rest ↦ skip_spaces (skip_dot rest) ]

-- `[\s\-#.]`
unfoldable pub is_separator : ℕ → Bool
unfolding is_space
is_separator c = is_space c || c == b'-' || c == b'#' || c == b'.'

unfoldable pub unit_fingerprint : List ℕ → List ℕ
unfolding to_upper strip drop_label is_separator
unit_fingerprint raw =
    select (λ c. not (is_separator c)) (drop_label unit_labels (strip (map to_upper raw)))

-- `re.sub(r"\bWORD\b", repl, text)` for a word of letters: each maximal run of word characters that
-- is the word. `run` is the run so far.
unfoldable pub replace_word : (word repl run : List ℕ) → List ℕ → List ℕ
unfolding same_text is_word
replace_word word repl run [] = if same_text run word then repl else run
replace_word word repl run (c ∷ s) = elim (is_word c) [
  | true ↦ replace_word word repl (run ++ c ∷ []) s
  | false ↦ (if same_text run word then repl else run) ++ c ∷ replace_word word repl [] s
]

-- `replacements`
abbrev pub suffixes : List (List ℕ × List ℕ)
suffixes =
    (codes "street", codes "st")
    ∷ (codes "avenue", codes "ave")
    ∷ (codes "boulevard", codes "blvd")
    ∷ (codes "road", codes "rd")
    ∷ (codes "place", codes "pl")
    ∷ (codes "drive", codes "dr")
    ∷ (codes "lane", codes "ln")
    ∷ (codes "terrace", codes "ter")
    ∷ (codes "parkway", codes "pkwy")
    ∷ (codes "east", codes "e")
    ∷ (codes "west", codes "w")
    ∷ (codes "north", codes "n")
    ∷ (codes "south", codes "s")
    ∷ []

unfoldable pub replace_all : List (List ℕ × List ℕ) → List ℕ → List ℕ
unfolding replace_word
replace_all [] s = s
replace_all ((word, repl) ∷ rest) s = replace_all rest (replace_word word repl [] s)

-- `re.sub(r"[.,#]", " ", text)`, on one character.
unfoldable pub blank_mark : ℕ → ℕ
blank_mark c = if c == b'.' || c == b',' || c == b'#' then 32 else c

-- `re.sub(r"\s+", " ", text)`. `blank` says that the run of white space goes on.
unfoldable pub collapse : (blank : Bool) → List ℕ → List ℕ
unfolding is_space
collapse blank [] = []
collapse blank (c ∷ s) = elim (is_space c) [
  | true ↦ let rest = collapse true s in if blank then rest else 32 ∷ rest
  | false ↦ c ∷ collapse false s
]

unfoldable pub address_fingerprint : List ℕ → List ℕ
unfolding to_lower strip blank_mark replace_all collapse
address_fingerprint raw =
    strip (collapse false (replace_all suffixes (map blank_mark (strip (map to_lower raw)))))

unit_labels_dropped : unit_fingerprint (codes "Apt. 4-a") ≡ codes "4A"
unfolding unit_fingerprint
unit_labels_dropped = refl

address_shortened : address_fingerprint (codes " 12 East 9th Street,  #3") ≡ codes "12 e 9th st 3"
unfolding address_fingerprint
address_shortened = refl
