-- ===== src/Fsm/Selection/Names.antt =====
-- `Transition::nameMatch` of src/fsm.rs: an event descriptor matches a name.
use r_fsm.Prelude.{
  ℕ, ◌+◌, ◌≤◌, ◌<◌, List, [], ◌∷◌, ◌++◌, true, false, ◌||◌, ◌==◌, length, get_elem?, All, ◌≡◌, refl,
  sym, ap, ◌∙◌, arith, inl, inr, ◌⊎◌, ◌↔◌, Bool-cases,
}
use mathlib.Core.List.{append-nil}
use r_fsm.Fsm.Types.{Text, Transition}
use r_fsm.Fsm.Selection.{byte_len, starts_with, is_dot, match_one, match_loop, name_match}

abbrev pub Ascii : Text → Type 0
Ascii s = All (λ c. c < 0x80) s

byte_len-Ascii : (s : Text) → Ascii s → byte_len s ≡ length s
byte_len-Ascii [] h = refl
byte_len-Ascii (c ∷ s) (a, h) = ground (arith, byte_len-Ascii s h)

-- The descriptor is the whole name, or its beginning up to a dot.
abbrev pub Matches : Text → Text → Type 0
Matches e name = (name ≡ e) ⊎ ((rest : Text) × (name ≡ e ++ 0x2e ∷ rest))

starts_with-append : (e rest : Text) → starts_with (e ++ rest) e ≡ true
starts_with-append [] rest = ground arith
starts_with-append (c ∷ e) rest = ground (arith, starts_with-append e rest)

starts_with-rest : (name e : Text) → starts_with name e ≡ true → (rest : Text) × (name ≡ e ++ rest)
starts_with-rest name [] h = (name, refl)
starts_with-rest [] (d ∷ e) h = cc
starts_with-rest (c ∷ name) (d ∷ e) h =
    let (rest, q) = starts_with-rest name e (ground (arith, h)) in
    let same : c ≡ d = ground (arith, h) in (rest, ap (λ x. x ∷ name) same ∙ ap (λ l. d ∷ l) q)

get_elem?-append : (e rest : Text) → get_elem? (e ++ rest) (length e) ≡ get_elem? rest 0
get_elem?-append [] rest = refl
get_elem?-append (c ∷ e) rest = get_elem?-append e rest

byte_len-append : (e rest : Text) → byte_len (e ++ rest) ≡ byte_len e + byte_len rest
byte_len-append [] rest = omega arith
byte_len-append (c ∷ e) rest = omega (arith, byte_len-append e rest)

byte_len-cons : (c : ℕ) (s : Text) → 1 ≤ byte_len (c ∷ s)
byte_len-cons c s = ground arith

-- What stands behind a descriptor of ASCII characters: nothing, or a dot.
match_one-append :
    (e rest : Text)
    → Ascii e
    → match_one (e ++ rest) e ≡ (byte_len rest == 0 || is_dot (get_elem? rest 0))
unfolding match_one
match_one-append e rest a =
    rw (starts_with-append e rest, byte_len-Ascii e a, get_elem?-append e rest)
      (ground (arith, byte_len-append e rest, byte_len-Ascii e a))

Matches-of_match :
    (e rest : Text)
    → (byte_len rest == 0 || is_dot (get_elem? rest 0)) ≡ true
    → Matches e (e ++ rest)
Matches-of_match e [] h = inl (append-nil e)
Matches-of_match e (c ∷ rest) h =
    let dot : c ≡ 0x2e = ground (arith, byte_len-cons c rest) in
    inr (rest, ap (λ x. e ++ x ∷ rest) dot)

match_one-Ascii : (name e : Text) → Ascii e → (match_one name e ≡ true) ↔ Matches e name
match_one-Ascii name e a = (there, back)
  where
    there : match_one name e ≡ true → Matches e name
    there h =
        let prefix : starts_with name e ≡ true = unfold match_one in ground (arith, h) in
        let (rest, q) = starts_with-rest name e prefix in
        let h' : match_one (e ++ rest) e ≡ true = rw q at h in
        rw q (Matches-of_match e rest (sym (match_one-append e rest a) ∙ h'))

    back : Matches e name → match_one name e ≡ true
    back (inl q) =
        let q' : name ≡ e ++ [] = q ∙ sym (append-nil e) in
        rw (q', match_one-append e [] a) (ground arith)
    back (inr (rest, q)) = rw (q, match_one-append e (0x2e ∷ rest) a) (ground arith)

-- Some descriptor of a list matches the name.
pub data MatchesOne (name : Text) : List Text → Type 0 where
  first : {e : Text} {l : List Text} → Matches e name → MatchesOne name (e ∷ l)
  later : {e : Text} {l : List Text} → MatchesOne name l → MatchesOne name (e ∷ l)

match_loop-sound :
    (name : Text) (l : List Text) → All Ascii l → match_loop l name ≡ true → MatchesOne name l
unfolding match_loop
match_loop-sound name [] a h = cc
match_loop-sound name (e ∷ l) (a, b) h = elim (Bool-cases (match_one name e)) [
  | inl hit ↦ first ((match_one-Ascii name e a).0 hit)
  | inr miss ↦ later (match_loop-sound name l b (rw miss at h))
]

match_loop_complete :
    (name : Text) (l : List Text) → All Ascii l → MatchesOne name l → match_loop l name ≡ true
unfolding match_loop
match_loop_complete name [] a h = elim h [ ]
match_loop_complete name (e ∷ l) (a, b) (first h) = rw ((match_one-Ascii name e a).1 h)
match_loop_complete name (e ∷ l) (a, b) (later h) =
    let rest = match_loop_complete name l b h in
    elim (Bool-cases (match_one name e)) [ inl hit ↦ rw hit | inr miss ↦ rw miss rest ]

-- With descriptors of ASCII characters, a transition matches a name exactly if it has the wildcard
-- or if one of its descriptors is the name, or its beginning up to a dot.
pub name_match-Matches :
    (t : Transition) (name : Text)
    → All Ascii t.events
    → (name_match t name ≡ true) ↔ ((t.wildcard ≡ true) ⊎ MatchesOne name t.events)
unfolding name_match
name_match-Matches t name a = (there, back)
  where
    there : name_match t name ≡ true → (t.wildcard ≡ true) ⊎ MatchesOne name t.events
    there h = elim (Bool-cases t.wildcard) [
      | inl hit ↦ inl hit
      | inr miss ↦ inr (match_loop-sound name t.events a (rw miss at h))
    ]

    back : (t.wildcard ≡ true) ⊎ MatchesOne name t.events → name_match t name ≡ true
    back (inl hit) = rw hit
    back (inr h) = ground (arith, match_loop_complete name t.events a h)

-- A descriptor of one character of two bytes does not match its name with a dot and a character
-- other than a dot behind it.
pub name_match-two_bytes :
    (t : Transition) (c x : ℕ) (rest : Text)
    → 0x80 ≤ c
    → c < 0x800
    → t.wildcard ≡ false
    → t.events ≡ (c ∷ []) ∷ []
    → (x == 0x2e) ≡ false
    → name_match t (c ∷ 0x2e ∷ x ∷ rest) ≡ false
unfolding name_match match_loop match_one
name_match-two_bytes t c x rest lo hi w e h = rw (w, e) (ground arith)
