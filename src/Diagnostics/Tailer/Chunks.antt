-- ===== src/Diagnostics/Tailer/Chunks.antt =====
-- Where the log is cut into readings makes no difference to what is parsed
-- (parseChunk of internal/diagnostics/tailer.go).
use ovpn.Prelude.{
  text_eq, subst, ℕ, ◌≡◌, refl, sym, ap, ◌∙◌, inl, inr, true, false, List, [], ◌∷◌, ◌++◌,
  append-nil, append_assoc, Text, arith, ◌==◌, Bool-cases,
}
use ovpn.Strings.{split, push_char, trim_space}
use ovpn.Strings.Split.{split_cases}
use ovpn.Model.Types.{ConnectionEvent}
use ovpn.Diagnostics.{LineParsers, parse_access_line}
use ovpn.Diagnostics.Tailer.{
  Observed, Tail, last_part, all_but_last, ends_line, cut_lines, parsed_line, parse_lines,
  parse_chunk,
}

abbrev complete : Text → List Text
complete s = all_but_last (split s 10)

abbrev rest_of : Text → Text
rest_of s = last_part (split s 10)

parts_cases : (s : Text) → (p : Text) × (ps : List Text) × (split s 10 ≡ p ∷ ps)
parts_cases s = split_cases s 10

all_but_last-append :
    (xs : List Text) (p : Text) (ps : List Text)
    → (all_but_last (xs ++ p ∷ ps) ≡ xs ++ all_but_last (p ∷ ps))
      × (last_part (xs ++ p ∷ ps) ≡ last_part (p ∷ ps))
all_but_last-append [] p ps = (refl, refl)
all_but_last-append (x ∷ []) p ps = (refl, refl)
all_but_last-append (x ∷ y ∷ xs) p ps =
    let (a, b) = all_but_last-append (y ∷ xs) p ps in (ap (λ t. x ∷ t) a, b)

newline_parts :
    (parts : List Text) (p : Text) (ps : List Text) (later : Text → List Text)
    → parts ≡ p ∷ ps
    → [] ∷ (all_but_last parts ++ later (last_part parts))
      ≡ all_but_last ([] ∷ parts) ++ later (last_part ([] ∷ parts))
newline_parts parts p ps later e = rw e refl

pushed_parts :
    (x : ℕ) (p : Text) (ps : List Text) (later : Text → List Text)
    → ((r : Text) → later (x ∷ r) ≡ push_char x (later r))
    → push_char x (all_but_last (p ∷ ps) ++ later (last_part (p ∷ ps)))
      ≡ all_but_last (push_char x (p ∷ ps)) ++ later (last_part (push_char x (p ∷ ps)))
pushed_parts x p [] later h = sym (h p)
pushed_parts x p (q ∷ qs) later h = refl

split_push :
    (x : ℕ) (m r : Text)
    → (x == 10) ≡ false
    → split ((x ∷ r) ++ m) 10 ≡ push_char x (split (r ++ m) 10)
unfolding split
split_push x m r e = rw e refl

-- The parts of a text that goes on are its complete lines, and the parts of the rest with what follows.
split-append_rest : (s m : Text) → split (s ++ m) 10 ≡ complete s ++ split (rest_of s ++ m) 10
unfolding split
split-append_rest [] m = refl
split-append_rest (x ∷ s) m =
    let (p, ps, e) = parts_cases s in
    let later = λ (r : Text). split (r ++ m) 10 in
    elim (Bool-cases (x == 10)) [
      | inl n ↦
          rw n (ap (λ t. [] ∷ t) (split-append_rest s m) ∙ newline_parts (split s 10) p ps later e)
      | inr n ↦ rw n (
          ap (push_char x) (split-append_rest s m)
          ∙ subst
              (λ parts.
                push_char x (all_but_last parts ++ later (last_part parts))
                ≡ all_but_last (push_char x parts) ++ later (last_part (push_char x parts)))
              (sym e) (pushed_parts x p ps later (λ r. split_push x m r n)))
    ]

lines-append :
    (s m : Text)
    → (complete (s ++ m) ≡ complete s ++ complete (rest_of s ++ m))
      × (rest_of (s ++ m) ≡ rest_of (rest_of s ++ m))
lines-append s m =
    let (q, qs, e) = parts_cases (rest_of s ++ m) in
    rw (split-append_rest s m, e) (all_but_last-append (complete s) q qs)

split_newline : (s : Text) (parts : List Text) → split s 10 ≡ parts → split (10 ∷ s) 10 ≡ [] ∷ parts
unfolding split
split_newline s parts e = ap (λ t. [] ∷ t) e

split_other :
    (c : ℕ) (s : Text) (parts : List Text)
    → (c == 10) ≡ false
    → split s 10 ≡ parts
    → split (c ∷ s) 10 ≡ push_char c parts
unfolding split
split_other c s parts n e = rw n (ap (push_char c) e)

-- A text that ends with a newline has an empty last part, after another.
ended_parts :
    (s : Text)
    → ends_line s ≡ true
    → (p q : Text) × (qs : List Text) × (split s 10 ≡ p ∷ q ∷ qs) × (last_part (q ∷ qs) ≡ [])
unfolding ends_line
ended_parts [] h = absurd (ground arith)
ended_parts (c ∷ []) h =
    let is_newline : c ≡ 10 = ground arith in
    ([], [], [], rw is_newline (split_newline [] ([] ∷ []) (unfold split in refl)), refl)
ended_parts (c ∷ d ∷ s) h =
    let (p, q, qs, e, last) = ended_parts (d ∷ s) h in
    elim (Bool-cases (c == 10)) [
      | inl n ↦
          let is_newline : c ≡ 10 = ground arith in
          ([], p, q ∷ qs, rw is_newline (split_newline (d ∷ s) (p ∷ q ∷ qs) e), last)
      | inr n ↦ (c ∷ p, q, qs, split_other c (d ∷ s) (p ∷ q ∷ qs) n e, last)
    ]

module _ (p : LineParsers) where
  abbrev parsed : List Text → List ConnectionEvent × List Observed
  parsed lines = parse_lines p lines

  parse_lines-append :
      (xs ys : List Text)
      → parse_lines p (xs ++ ys) ≡ ((parsed xs).0 ++ (parsed ys).0, (parsed xs).1 ++ (parsed ys).1)
  unfolding parse_lines
  parse_lines-append [] ys = refl
  parse_lines-append (x ∷ xs) ys =
      let (events, errors) = parsed_line p x (parse_access_line p x) in
      rw
        (
          parse_lines-append xs ys,
          append_assoc events (parsed xs).0 (parsed ys).0,
          append_assoc errors (parsed xs).1 (parsed ys).1,
        )
        refl

  empty_line : parse_lines p ([] ∷ []) ≡ ([], [])
  unfolding parse_lines parse_access_line trim_space text_eq
  empty_line = refl

  with_last :
      (x : Text) (xs : List Text) → all_but_last (x ∷ xs) ++ last_part (x ∷ xs) ∷ [] ≡ x ∷ xs
  with_last x [] = refl
  with_last x (y ∷ ys) = ap (λ t. x ∷ t) (with_last y ys)

  last_empty :
      (x : Text) (xs : List Text)
      → last_part (x ∷ xs) ≡ []
      → parse_lines p (x ∷ xs) ≡ parse_lines p (all_but_last (x ∷ xs))
  last_empty x xs e =
      let init = all_but_last (x ∷ xs) in
      ap (parse_lines p) (sym (with_last x xs))
      ∙ (ap (λ l. parse_lines p (init ++ l ∷ [])) e
          ∙ (parse_lines-append init ([] ∷ [])
              ∙ rw (empty_line, append-nil (parsed init).0, append-nil (parsed init).1) refl))

  -- What is parsed of a text are its complete lines.
  cut_lines_lem :
      (s : Text)
      → (parse_lines p (cut_lines s).0 ≡ parse_lines p (complete s)) × ((cut_lines s).1 ≡ rest_of s)
  unfolding cut_lines
  cut_lines_lem s = elim (Bool-cases (ends_line s)) [
    | inl e ↦
        let (x, q, qs, parts, last) = ended_parts s e in
        rw (e, parts) (last_empty x (q ∷ qs) last, sym last)
    | inr e ↦ rw e (refl, refl)
  ]

  cut_lines-append :
      (s m : Text)
      → (parse_lines p (cut_lines (s ++ m)).0 ≡ (
        (parsed (cut_lines s).0).0 ++ (parsed (cut_lines ((cut_lines s).1 ++ m)).0).0,
        (parsed (cut_lines s).0).1 ++ (parsed (cut_lines ((cut_lines s).1 ++ m)).0).1,
      ))
        × ((cut_lines (s ++ m)).1 ≡ (cut_lines ((cut_lines s).1 ++ m)).1)
  cut_lines-append s m =
      let (all, left) = cut_lines_lem (s ++ m) in
      let (first, kept) = cut_lines_lem s in
      let (second, later) = cut_lines_lem (rest_of s ++ m) in
      let (lines, rest) = lines-append s m in
      rw (all, left, kept, first, second, later, lines, rest)
        (parse_lines-append (complete s) (complete (rest_of s ++ m)), refl)

  -- Parsing a chunk of the log and then the next is parsing both as one: the same events in the same
  -- order, the same parse errors, and the same beginning of a line kept.
  pub parse_chunk-append :
      (chunk more : Text) (t : Tail)
      → let (events, t1) = parse_chunk p chunk t in
        let (later, t2) = parse_chunk p more t1 in
        parse_chunk p (chunk ++ more) t ≡ (events ++ later, t2)
  unfolding parse_chunk
  parse_chunk-append chunk more t =
      let text = t.partial ++ chunk in
      let (lines, rest) = cut_lines-append text more in
      rw
        (
          sym (append_assoc t.partial chunk more),
          lines,
          rest,
          append_assoc t.observed (parsed (cut_lines text).0).1
              (parsed (cut_lines ((cut_lines text).1 ++ more)).0).1,
        )
        refl
