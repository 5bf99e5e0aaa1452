-- ===== src/Core/ProcessInstance/Identity.antt =====
-- The texts that are hashed to identify a process determine the facts they are made of.
use panopticon_agent.Prelude.{
  ℕ, ◌<◌, ◌≡◌, ◌≢◌, refl, sym, ap, ◌∙◌, true, some, [], ◌∷◌, ◌++◌, append_assoc, append-nil, length,
  arith, Text, codes, all_chars, is_digit, size_mod, to_string, to_string-digits, from_chars,
  from_chars-to_string,
}
use panopticon_agent.Core.ProcessInstance.{field, native_text, source_text}

cons_equal : (c d : ℕ) (s t : Text) → c ∷ s ≡ d ∷ t → (c ≡ d) × (s ≡ t)
cons_equal c d s t e = (ground arith, ground arith)

-- Digits end at the colon behind them.
split_colon :
    (a b x y : Text)
    → all_chars is_digit a ≡ true
    → all_chars is_digit b ≡ true
    → a ++ (b':' ∷ x) ≡ b ++ (b':' ∷ y)
    → (a ≡ b) × (x ≡ y)
unfolding all_chars
split_colon [] [] x y ha hb e = (refl, ground arith)
split_colon [] (c ∷ b) x y ha hb e = absurd (ground arith)
split_colon (c ∷ a) [] x y ha hb e = absurd (ground arith)
split_colon (c ∷ a) (d ∷ b) x y ha hb e =
    let (heads, tails) = cons_equal c d (a ++ (b':' ∷ x)) (b ++ (b':' ∷ y)) e in
    let (same, rest) = split_colon a b x y (ground arith) (ground arith) tails in
    (rw (heads, same) refl, rest)

to_string-injective : (n m : ℕ) → n < size_mod → m < size_mod → to_string n ≡ to_string m → n ≡ m
to_string-injective n m hn hm e =
    same n m (sym (from_chars-to_string n hn) ∙ ap from_chars e ∙ from_chars-to_string m hm)
  where
    same : (n m : ℕ) → some n ≡ some m → n ≡ m
    same n m h = ground arith

-- Two texts of one length are cut at the same place.
cut_equal : (v w r s : Text) → length v ≡ length w → v ++ r ≡ w ++ s → (v ≡ w) × (r ≡ s)
cut_equal [] [] r s l e = (refl, e)
cut_equal [] (d ∷ w) r s l e = absurd (omega arith)
cut_equal (c ∷ v) [] r s l e = absurd (omega arith)
cut_equal (c ∷ v) (d ∷ w) r s l e =
    let (heads, tails) = cons_equal c d (v ++ r) (w ++ s) e in
    let (same, rest) = cut_equal v w r s (omega (arith, l)) tails in (rw (heads, same) refl, rest)

field-injective :
    (v w r s : Text)
    → length v < size_mod
    → length w < size_mod
    → field v ++ r ≡ field w ++ s
    → (v ≡ w) × (r ≡ s)
unfolding field
field-injective v w r s hv hw e =
    let (lengths, rest) =
      split_colon (to_string (length v)) (to_string (length w)) (v ++ r) (w ++ s)
        (to_string-digits (length v)) (to_string-digits (length w))
        (sym (append_assoc (to_string (length v)) (b':' ∷ v) r)
          ∙ e
          ∙ append_assoc (to_string (length w)) (b':' ∷ w) s) in
    cut_equal v w r s (to_string-injective (length v) (length w) hv hw lengths) rest

-- The facts that identify a process: its native ones, or those within its source.
pub data Facts : Type 0 where
  native : Text → Text → ℕ → ℕ → Facts
  source : Text → Text → Text → ℕ → Text → Facts

abbrev pub hashed_text : Facts → Text
hashed_text (native host boot pid ticks) = native_text host boot pid ticks
hashed_text (source host boot source_namespace pid guid) =
    source_text host boot source_namespace pid guid

-- A text that fits into memory.
abbrev pub Short : Text → Type 0
Short t = length t < size_mod

-- The numbers are 64-bit values, and all texts fit.
abbrev pub InRange : Facts → Type 0
InRange (native host boot pid ticks) =
    Short host
    × Short boot
    × (pid < size_mod)
    × (ticks < size_mod)
    × Short (to_string pid)
    × Short (to_string ticks)
InRange (source host boot source_namespace pid guid) =
    Short host
    × Short boot
    × Short source_namespace
    × (pid < size_mod)
    × Short (to_string pid)
    × Short guid

abbrev native_tag : Text
native_tag = codes "native-process-instance-v1"

abbrev source_tag : Text
source_tag = codes "source-process-instance-v1"

last_field-injective : (v w : Text) → Short v → Short w → field v ≡ field w → v ≡ w
last_field-injective v w hv hw e =
    (field-injective v w [] [] hv hw (append-nil (field v) ∙ e ∙ sym (append-nil (field w)))).0

native_text-injective :
    (h g b c : Text) (p q t u : ℕ)
    → InRange (native h b p t)
    → InRange (native g c q u)
    → native_text h b p t ≡ native_text g c q u
    → native h b p t ≡ native g c q u
unfolding native_text
native_text-injective h g b c p q t u x y e =
    let (e1, r1) =
      field-injective native_tag native_tag
        (field h ++ (field b ++ (field (to_string p) ++ (field (to_string t)))))
        (field g ++ (field c ++ (field (to_string q) ++ (field (to_string u))))) (omega arith)
        (omega arith) e in
    let (e2, r2) =
      field-injective h g (field b ++ (field (to_string p) ++ (field (to_string t))))
        (field c ++ (field (to_string q) ++ (field (to_string u)))) x.0 y.0 r1 in
    let (e3, r3) =
      field-injective b c (field (to_string p) ++ (field (to_string t)))
        (field (to_string q) ++ (field (to_string u))) x.1 y.1 r2 in
    let (e4, r4) =
      field-injective (to_string p) (to_string q) (field (to_string t)) (field (to_string u)) x.4
        y.4 r3 in
    let e5 = last_field-injective (to_string t) (to_string u) x.5 y.5 r4 in
    rw (e2, e3, to_string-injective p q x.2 y.2 e4, to_string-injective t u x.3 y.3 e5) refl

source_text-injective :
    (h k b c n m : Text) (p q : ℕ) (g f : Text)
    → InRange (source h b n p g)
    → InRange (source k c m q f)
    → source_text h b n p g ≡ source_text k c m q f
    → source h b n p g ≡ source k c m q f
unfolding source_text
source_text-injective h k b c n m p q g f x y e =
    let (e1, r1) =
      field-injective source_tag source_tag
        (field h ++ (field b ++ (field n ++ (field (to_string p) ++ (field g)))))
        (field k ++ (field c ++ (field m ++ (field (to_string q) ++ (field f))))) (omega arith)
        (omega arith) e in
    let (e2, r2) =
      field-injective h k (field b ++ (field n ++ (field (to_string p) ++ (field g))))
        (field c ++ (field m ++ (field (to_string q) ++ (field f)))) x.0 y.0 r1 in
    let (e3, r3) =
      field-injective b c (field n ++ (field (to_string p) ++ (field g)))
        (field m ++ (field (to_string q) ++ (field f))) x.1 y.1 r2 in
    let (e4, r4) =
      field-injective n m (field (to_string p) ++ (field g)) (field (to_string q) ++ (field f)) x.2
        y.2 r3 in
    let (e5, r5) = field-injective (to_string p) (to_string q) (field g) (field f) x.4 y.4 r4 in
    let e6 = last_field-injective g f x.5 y.5 r5 in
    rw (e2, e3, e4, to_string-injective p q x.3 y.3 e5, e6) refl

kinds_differ :
    (h b : Text) (p t : ℕ) (k c n : Text) (q : ℕ) (g : Text)
    → native_text h b p t ≢ source_text k c n q g
unfolding native_text source_text
kinds_differ h b p t k c n q g e =
    let (tags, rest) =
      field-injective native_tag source_tag
        (field h ++ (field b ++ (field (to_string p) ++ (field (to_string t)))))
        (field k ++ (field c ++ (field n ++ (field (to_string q) ++ (field g))))) (omega arith)
        (omega arith) e in
    absurd (differ tags)
  where
    differ : native_tag ≡ source_tag → ⊥
    differ e = ground arith

-- The texts that observe hashes determine the facts they are made of, where numbers are 64-bit
-- values and texts are shorter than 2 ^ 64 bytes: two texts are the same only if both are of the
-- native kind with the same host, boot, pid and ticks, or both of the source's kind with the same
-- host, boot, namespace, pid and guid, where the boot is the boot id, or the text unknown if there
-- is none.
pub hashed_text-injective :
    (f g : Facts) → InRange f → InRange g → hashed_text f ≡ hashed_text g → f ≡ g
hashed_text-injective (native h b p t) (native g c q u) x y e =
    native_text-injective h g b c p q t u x y e
hashed_text-injective (source h b n p g) (source k c m q f) x y e =
    source_text-injective h k b c n m p q g f x y e
hashed_text-injective (native h b p t) (source k c n q g) x y e =
    absurd (kinds_differ h b p t k c n q g e)
hashed_text-injective (source k c n q g) (native h b p t) x y e =
    absurd (kinds_differ h b p t k c n q g (sym e))
