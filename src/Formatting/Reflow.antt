-- ===== src/Formatting/Reflow.antt =====
-- What ext/lsp_server_formatting.c writes for one line (`lsp_format_emit`): the line with other blanks around
-- it, and a locked line as it was.
use mathlib.Core.Path.{subst}
use ext_lsparrot.Base.{
  ℕ, zero, suc, ◌≡◌, refl, sym, ap, ◌∙◌, ◌⊎◌, inl, inr, Bool, true, not, ◌&&◌, Bytes, [], ◌∷◌, ◌++◌,
  append_assoc, reverse, Bool-cases, leb, ◌==◌, ==→eq, All, All-append, if◌then◌else◌,
}
use ext_lsparrot.Base.Int.{ℤ, pos, negsuc, is_neg}
use ext_lsparrot.Formatting.{FormatOptions}
use ext_lsparrot.Formatting.Emit.{
  repeated, indent_bytes, append_indent, is_blank, skip_blanks, skip_return, trims, trimmed,
  starts_with_star, indented_as, reindented, written_line, unless_locked, emit_content, cut_newline,
  emit_line,
}
use ext_lsparrot.Formatting.Lines.{LineKind, Line, unset, code, locked, blank, comment}
use mathlib.Core.List.{reverse-append, reverse-reverse}

-- A space or a tab, and, at the end of a line, a carriage return.
abbrev pub IsBlank : ℕ → Type 0
IsBlank c = (c ≡ 32) ⊎ (c ≡ 9)

abbrev pub IsTail : ℕ → Type 0
IsTail c = IsBlank c ⊎ (c ≡ 13)

-- The end of a line: a newline, or nothing where the text ends.
abbrev pub IsLineEnd : Bytes → Type 0
IsLineEnd newline = (newline ≡ []) ⊎ (newline ≡ b'\n' ∷ [])

-- The same line but for the blanks around it, and with the same end.
pub record Reflowed (source out : Bytes) : Type 0 where
  pub lead : Bytes
  pub core : Bytes
  pub tail : Bytes
  pub newline : Bytes
  pub indentation : Bytes
  pub source_parts : source ≡ lead ++ (core ++ (tail ++ newline))
  pub out_parts : out ≡ indentation ++ (core ++ newline)
  pub lead_blank : All IsBlank lead
  pub tail_blank : All IsTail tail
  pub indentation_blank : All IsBlank indentation
  pub line_end : IsLineEnd newline

repeated-All : (P : ℕ → Type 0) (n c : ℕ) → P c → All P (repeated n c)
unfolding repeated
repeated-All P zero c h = tt
repeated-All P (suc n) c h = (h, repeated-All P n c h)

indent_bytes-All : (options : FormatOptions) (n : ℕ) → All IsBlank (indent_bytes options n)
unfolding indent_bytes
indent_bytes-All options zero = tt
indent_bytes-All options (suc n) = elim (Bool-cases (options.insert_spaces)) [
  | inl spaces ↦ rw spaces (
      All-append IsBlank _ (indent_bytes options n)
        (repeated-All IsBlank (if leb (options.indent_size) 16 then options.indent_size else 16) 32
          (inl refl))
        (indent_bytes-All options n))
  | inr tabs ↦ rw tabs (inr refl, indent_bytes-All options n)
]

append_indent-All :
    (options : FormatOptions) (units : ℤ) → All IsBlank (append_indent options units)
unfolding append_indent
append_indent-All options (pos n) = indent_bytes-All options n
append_indent-All options (negsuc n) = tt

IsBlank_lem : (c : ℕ) → is_blank c ≡ true → IsBlank c
IsBlank_lem c h = elim (Bool-cases (c == 32)) [
  | inl space ↦ inl (==→eq c 32 space)
  | inr other ↦ inr (==→eq c 9 (rw (sym h, other) refl))
]

-- What is skipped at the front of a line.
skip_blanks-split :
    (text : Bytes) → (front : Bytes) × (text ≡ front ++ skip_blanks text) × All IsBlank front
unfolding skip_blanks
skip_blanks-split [] = ([], refl, tt)
skip_blanks-split (c ∷ text) = elim (Bool-cases (is_blank c)) [
  | inl skipped ↦
      let (front, e, h) = skip_blanks-split text in
      (c ∷ front, rw skipped (ap (λ (t : Bytes). c ∷ t) e), (IsBlank_lem c skipped, h))
  | inr kept ↦ ([], rw kept refl, tt)
]

skip_return-split :
    (text : Bytes) → (front : Bytes) × (text ≡ front ++ skip_return text) × All IsTail front
unfolding skip_return
skip_return-split [] = ([], refl, tt)
skip_return-split (c ∷ text) = elim (Bool-cases (c == 13)) [
  | inl skipped ↦ (c ∷ [], rw skipped refl, (inr (==→eq c 13 skipped), tt))
  | inr kept ↦ ([], rw kept refl, tt)
]

IsTail-IsBlank : (text : Bytes) → All IsBlank text → All IsTail text
IsTail-IsBlank [] h = tt
IsTail-IsBlank (c ∷ text) (b, h) = (inl b, IsTail-IsBlank text h)

All-reverse : (P : ℕ → Type 0) (text : Bytes) → All P text → All P (reverse text)
All-reverse P [] h = tt
All-reverse P (c ∷ text) (b, h) =
    rw (reverse-append (c ∷ []) text)
      (All-append P (reverse text) (c ∷ []) (All-reverse P text h) (b, tt))

-- A front that is cut off the line read backwards is a tail of the line.
cut_back :
    (line front kept : Bytes) → reverse line ≡ front ++ kept → line ≡ reverse kept ++ reverse front
cut_back line front kept e = sym (reverse-reverse line) ∙ ap reverse e ∙ reverse-append front kept

trimmed-split :
    (options : FormatOptions) (kind : LineKind) (line : Bytes)
    → (tail : Bytes) × (line ≡ trimmed options kind line ++ tail) × All IsTail tail
unfolding trimmed
trimmed-split options kind line =
    let (front, e, h) = skip_return-split (reverse line) in
    let back = skip_return (reverse line) in
    let (blanks, e', h') = skip_blanks-split back in
    elim (Bool-cases (trims options kind)) [
      | inl trims' ↦ (
        reverse (front ++ blanks),
        rw trims' (
            cut_back line (front ++ blanks) (skip_blanks back)
              (e ∙ ap (λ (t : Bytes). front ++ t) e' ∙ sym (append_assoc front blanks _))),
        All-reverse IsTail (front ++ blanks)
            (All-append IsTail front blanks h (IsTail-IsBlank blanks h')),
      )
      | inr keeps ↦
          (reverse front, rw keeps (cut_back line front back e), All-reverse IsTail front h)
    ]

cut_newline-IsLineEnd : (line : Bytes) → IsLineEnd (cut_newline line).1
unfolding cut_newline
cut_newline-IsLineEnd [] = inl refl
cut_newline-IsLineEnd (c ∷ []) = elim (Bool-cases (c == 10)) [
  | inl newline ↦ rw newline (inr (ap (λ (d : ℕ). d ∷ []) (==→eq c 10 newline)))
  | inr other ↦ rw other (inl refl)
]
cut_newline-IsLineEnd (c ∷ d ∷ rest) = cut_newline-IsLineEnd (d ∷ rest)

cut_newline_lem : (line : Bytes) → line ≡ (cut_newline line).0 ++ (cut_newline line).1
unfolding cut_newline
cut_newline_lem [] = refl
cut_newline_lem (c ∷ []) = elim (Bool-cases (c == 10)) [
  | inl newline ↦ rw newline refl
  | inr other ↦ rw other refl
]
cut_newline_lem (c ∷ d ∷ rest) = ap (λ (t : Bytes). c ∷ t) (cut_newline_lem (d ∷ rest))

-- What is written: the line's content behind blanks, or its trimmed part.
data Kept (line content : Bytes) (out : Bytes) : Type 0 where
  same_blanks : out ≡ line → Kept line content out
  indented : (front : Bytes) → All IsBlank front → out ≡ front ++ content → Kept line content out

indented_as-Kept :
    (options : FormatOptions) (kind : LineKind) (indent : ℤ) (line content : Bytes)
    → Kept line content (indented_as options kind indent line content)
unfolding indented_as
indented_as-Kept options code indent line content =
    indented (append_indent options indent) (append_indent-All options indent) refl
indented_as-Kept options comment indent line content =
    elim (Bool-cases (starts_with_star content)) [
      | inl star ↦
          indented (append_indent options indent ++ (32 ∷ []))
            (All-append IsBlank (append_indent options indent) (32 ∷ [])
              (append_indent-All options indent) (inl refl, tt))
            (rw star (sym (append_assoc (append_indent options indent) (32 ∷ []) content)))
      | inr other ↦ same_blanks (rw other refl)
    ]
indented_as-Kept options unset indent line content = same_blanks refl
indented_as-Kept options locked indent line content = same_blanks refl
indented_as-Kept options blank indent line content = same_blanks refl

reindented-Kept :
    (options : FormatOptions) (reindent : Bool) (l : Line) (line content : Bytes)
    → Kept line content (reindented options reindent l line content)
unfolding reindented
reindented-Kept options reindent l line content =
    elim (Bool-cases (reindent && not (is_neg (l.indent)))) [
      | inl anew ↦ rw anew (indented_as-Kept options (l.kind) (l.indent) line content)
      | inr keeps ↦ rw keeps (same_blanks refl)
    ]

written_line-Kept :
    (options : FormatOptions) (reindent : Bool) (l : Line) (line content : Bytes)
    → Kept line content (written_line options reindent l line content)
unfolding written_line
written_line-Kept options reindent l line [] = elim (Bool-cases (options.trim_trailing)) [
  | inl trims' ↦ indented [] tt (rw trims' refl)
  | inr keeps ↦ same_blanks (rw keeps refl)
]
written_line-Kept options reindent l line (c ∷ content) =
    reindented-Kept options reindent l line (c ∷ content)

Kept-Reflowed :
    (line tail newline content front out : Bytes)
    → line ≡ front ++ content
    → All IsBlank front
    → All IsTail tail
    → IsLineEnd newline
    → Kept line content out
    → Reflowed ((line ++ tail) ++ newline) (out ++ newline)
Kept-Reflowed line tail newline content front out e blank' tails ends (same_blanks same) = record {
  lead = [];
  core = line;
  tail = tail;
  newline = newline;
  indentation = [];
  source_parts = append_assoc line tail newline;
  out_parts = ap (λ (t : Bytes). t ++ newline) same;
  lead_blank = tt;
  tail_blank = tails;
  indentation_blank = tt;
  line_end = ends;
}
Kept-Reflowed line tail newline content front out e blank' tails ends (indented anew blanks made) =
    record {
      lead = front;
      core = content;
      tail = tail;
      newline = newline;
      indentation = anew;
      source_parts =
          append_assoc line tail newline
          ∙ ap (λ (t : Bytes). t ++ (tail ++ newline)) e
          ∙ append_assoc front content (tail ++ newline);
      out_parts = ap (λ (t : Bytes). t ++ newline) made ∙ append_assoc anew content newline;
      lead_blank = blank';
      tail_blank = tails;
      indentation_blank = blanks;
      line_end = ends;
    }

written_line-Reflowed :
    (options : FormatOptions) (reindent : Bool) (l : Line) (content newline : Bytes)
    → IsLineEnd newline
    → Reflowed (content ++ newline) (
        written_line options reindent l
          (trimmed options (l.kind) content)
          (skip_blanks (trimmed options (l.kind) content))
        ++ newline)
written_line-Reflowed options reindent l content newline ends =
    let line = trimmed options (l.kind) content in
    let (tail, e, tails) = trimmed-split options (l.kind) content in
    let (front, e', blanks) = skip_blanks-split line in
    let out = written_line options reindent l line (skip_blanks line) in
    subst (λ (t : Bytes). Reflowed (t ++ newline) (out ++ newline)) (sym e)
      (Kept-Reflowed line tail newline (skip_blanks line) front out e' blanks tails ends
        (written_line-Kept options reindent l line (skip_blanks line)))

same-Reflowed :
    (line newline : Bytes) → IsLineEnd newline → Reflowed (line ++ newline) (line ++ newline)
same-Reflowed line newline ends = record {
  lead = [];
  core = line;
  tail = [];
  newline = newline;
  indentation = [];
  source_parts = refl;
  out_parts = refl;
  lead_blank = tt;
  tail_blank = tt;
  indentation_blank = tt;
  line_end = ends;
}

unless_locked-Reflowed :
    (kind : LineKind) (line newline out : Bytes)
    → IsLineEnd newline
    → Reflowed (line ++ newline) (out ++ newline)
    → Reflowed (line ++ newline) (unless_locked kind line out ++ newline)
unfolding unless_locked
unless_locked-Reflowed locked line newline out ends h = same-Reflowed line newline ends
unless_locked-Reflowed unset line newline out ends h = h
unless_locked-Reflowed code line newline out ends h = h
unless_locked-Reflowed blank line newline out ends h = h
unless_locked-Reflowed comment line newline out ends h = h

-- The line that is written has the bytes of the source line between other blanks.
pub emit_line-Reflowed :
    (options : FormatOptions) (reindent : Bool) (l : Line) (line : Bytes)
    → Reflowed line (emit_line options reindent l line)
unfolding emit_line emit_content
emit_line-Reflowed options reindent l line =
    let (content, newline) = cut_newline line in
    let ends = cut_newline-IsLineEnd line in
    subst (λ (t : Bytes). Reflowed t (emit_line options reindent l line))
      (sym (cut_newline_lem line))
      (unless_locked-Reflowed (l.kind) content newline _ ends
        (written_line-Reflowed options reindent l content newline ends))

-- A locked line is written as it is.
pub emit_line-locked :
    (options : FormatOptions) (reindent : Bool) (l : Line) (line : Bytes)
    → l.kind ≡ locked
    → emit_line options reindent l line ≡ line
unfolding emit_line emit_content unless_locked
emit_line-locked options reindent l line e =
    let cut = trimmed options (l.kind) (cut_newline line).0 in
    let out = written_line options reindent l cut (skip_blanks cut) in
    ap (λ (k : LineKind). unless_locked k (cut_newline line).0 out ++ (cut_newline line).1) e
    ∙ sym (cut_newline_lem line)
