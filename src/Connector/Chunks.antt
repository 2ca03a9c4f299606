-- ===== src/Connector/Chunks.antt =====
-- How the socket cuts a text into reads does not matter (src/connector.cpp, `parseBuffer`).
use cppagent.Base.{
  ℕ, ◌≡◌, refl, Option, none, some, List, [], ◌∷◌, ◌++◌, Text, split_last, arith, ap, sym, ◌∙◌,
  append_assoc, append-nil,
}
use cppagent.Connector.{
  Connector, Action, is_newline, handle_line, handle_lines, lines, parse_buffer, start_heartbeats,
}
use cppagent.Connector.Lines.{
  split_last-joined, full, lines-append, full-append, handle_lines-full, handle_lines-append,
}

-- The buffer of a result is replaced.
abbrev with_buffer : Text → Connector × List Action → Connector × List Action
with_buffer o r = (record r.0 { buffer = o }, r.1)

start_heartbeats-buffer :
    (arg o : Text) (c : Connector)
    → start_heartbeats arg (record c { buffer = o })
      ≡ record (start_heartbeats arg c) { buffer = o }
unfolding start_heartbeats
start_heartbeats-buffer arg o c = ground arith

handle_line-buffer :
    (now : ℕ) (l o : Text) (c : Connector)
    → handle_line now l (record c { buffer = o }) ≡ with_buffer o (handle_line now l c)
unfolding handle_line
handle_line-buffer now [] o c = refl
handle_line-buffer now (b ∷ l) o c = ground (arith, start_heartbeats-buffer (b ∷ l) o c)

handle_lines-buffer :
    (now : ℕ) (ls : List Text) (o : Text) (c : Connector)
    → handle_lines now ls (record c { buffer = o }) ≡ with_buffer o (handle_lines now ls c)
unfolding handle_lines
handle_lines-buffer now [] o c = refl
handle_lines-buffer now (l ∷ ls) o c =
    let e = handle_line-buffer now l o c in
    ap (λ x. (let r = handle_lines now ls x.0 in (r.0, x.1 ++ r.1))) e
    ∙ ap (λ r. (r.0, (handle_line now l c).1 ++ r.1))
        (handle_lines-buffer now ls o (handle_line now l c).0)

parse_buffer-none :
    (now : ℕ) (chunk : Text) (c : Connector)
    → split_last is_newline (c.buffer ++ chunk) ≡ none
    → parse_buffer now chunk c ≡ (record c { buffer = c.buffer ++ chunk }, [])
unfolding parse_buffer
parse_buffer-none now chunk c e = rw (e, parse_buffer) refl

full-lines_end : (a : Text) → full (lines (a ++ (10 ∷ []))) ≡ full (lines a)
unfolding lines
full-lines_end a =
    ap full (lines-append a []) ∙ full-append (lines a) ([] ∷ []) ∙ append-nil (full (lines a))

parse_buffer-some :
    (now : ℕ) (chunk a o : Text) (c : Connector)
    → split_last is_newline (c.buffer ++ chunk) ≡ some (a, o)
    → parse_buffer now chunk c ≡ with_buffer o (handle_lines now (full (lines a)) c)
unfolding parse_buffer
parse_buffer-some now chunk a o c e =
    let j = split_last-joined (c.buffer ++ chunk) a o e in go o e j
  where
    go :
        (q : Text)
        → split_last is_newline (c.buffer ++ chunk) ≡ some (a, q)
        → c.buffer ++ chunk ≡ a ++ (10 ∷ q)
        → parse_buffer now chunk c ≡ with_buffer q (handle_lines now (full (lines a)) c)
    go (b ∷ q) d j =
        rw (d, parse_buffer) (ap (with_buffer (b ∷ q)) (handle_lines-full now (lines a) c))
    go [] d j =
        rw (d, parse_buffer)
          (ap (with_buffer []) (
            handle_lines-full now (lines (c.buffer ++ chunk)) c
            ∙ ap (λ t. handle_lines now (full (lines t)) c) j
            ∙ ap (λ ls. handle_lines now ls c) (full-lines_end a)))

-- The results of two reads, one behind the other.
abbrev pub parse_two : ℕ → Text → Text → Connector → Connector × List Action
parse_two now x y c =
    let r = parse_buffer now x c in let s = parse_buffer now y r.0 in (s.0, r.1 ++ s.1)

-- What is in the buffer might as well be read again.
parse_buffer-carry :
    (now : ℕ) (x y : Text) (c : Connector)
    → parse_buffer now (x ++ y) c ≡ parse_buffer now y (record c { buffer = c.buffer ++ x })
parse_buffer-carry now x y c = go (split_last is_newline ((c.buffer ++ x) ++ y)) refl
  where
    assoc : c.buffer ++ (x ++ y) ≡ (c.buffer ++ x) ++ y
    assoc = sym (append_assoc c.buffer x y)

    go :
        (r : Option (Text × Text))
        → split_last is_newline ((c.buffer ++ x) ++ y) ≡ r
        → parse_buffer now (x ++ y) c ≡ parse_buffer now y (record c { buffer = c.buffer ++ x })
    go none d =
        parse_buffer-none now (x ++ y) c (ap (split_last is_newline) assoc ∙ d)
        ∙ ap (λ t. (record c { buffer = t }, [])) assoc
        ∙ sym (parse_buffer-none now y (record c { buffer = c.buffer ++ x }) d)
    go (some (a, o)) d =
        parse_buffer-some now (x ++ y) a o c (ap (split_last is_newline) assoc ∙ d)
        ∙ sym (
            parse_buffer-some now y a o (record c { buffer = c.buffer ++ x }) d
            ∙ ap (with_buffer o) (handle_lines-buffer now (full (lines a)) (c.buffer ++ x) c))

-- A split of a text with a newline in it.
abbrev split_behind : Text → Text → Option (Text × Text)
split_behind a w = elim (split_last is_newline w) [
  | some (p, q) ↦ some (a ++ (10 ∷ p), q)
  | none ↦ some (a, w)
]

split_last-behind : (a w : Text) → split_last is_newline (a ++ (10 ∷ w)) ≡ split_behind a w
split_last-behind [] w = ground arith
split_last-behind (c ∷ a) w = ground (arith, split_last-behind a w)

with_lines :
    (now : ℕ) (a p o q : Text) (c : Connector)
    → with_buffer q (handle_lines now (full (lines (a ++ (10 ∷ p)))) c) ≡ (
        let r = with_buffer o (handle_lines now (full (lines a)) c) in
        let s = with_buffer q (handle_lines now (full (lines p)) r.0) in (s.0, r.1 ++ s.1))
with_lines now a p o q c =
    let r = handle_lines now (full (lines a)) c in
    ap (λ ls. with_buffer q (handle_lines now ls c))
      (ap full (lines-append a p) ∙ full-append (lines a) (lines p))
    ∙ ap (with_buffer q) (handle_lines-append now (full (lines a)) (full (lines p)) c)
    ∙ sym (
        ap (λ s. (record s.0 { buffer = q }, r.1 ++ s.1))
          (handle_lines-buffer now (full (lines p)) o r.0))

-- Reading a text in two parts has the same result as reading it at once: the same lines are handled
-- in the same order, the heartbeats start alike, and the same text is left in the buffer.
pub parse_two_lem :
    (now : ℕ) (x y : Text) (c : Connector) → parse_two now x y c ≡ parse_buffer now (x ++ y) c
parse_two_lem now x y c = go (split_last is_newline (c.buffer ++ x)) refl
  where
    all : (a o : Text) → c.buffer ++ x ≡ a ++ (10 ∷ o) → c.buffer ++ (x ++ y) ≡ a ++ (10 ∷ (o ++ y))
    all a o e = sym (append_assoc c.buffer x y) ∙ ap (λ t. t ++ y) e ∙ append_assoc a (10 ∷ o) y

    next :
        (a o : Text) (r : Option (Text × Text))
        → split_last is_newline (o ++ y) ≡ r
        → c.buffer ++ x ≡ a ++ (10 ∷ o)
        → (let r = with_buffer o (handle_lines now (full (lines a)) c) in
            let s = parse_buffer now y r.0 in (s.0, r.1 ++ s.1))
          ≡ parse_buffer now (x ++ y) c
    next a o none d e =
        let t = with_buffer o (handle_lines now (full (lines a)) c) in
        let w : split_last is_newline (c.buffer ++ (x ++ y)) ≡ some (a, o ++ y) =
          ap (split_last is_newline) (all a o e)
          ∙ split_last-behind a (o ++ y)
          ∙ rw (d, split_behind) refl in
        ap (λ s. (s.0, t.1 ++ s.1)) (parse_buffer-none now y t.0 d)
        ∙ ap (λ l. (record t.0 { buffer = o ++ y }, l)) (append-nil t.1)
        ∙ sym (parse_buffer-some now (x ++ y) a (o ++ y) c w)
    next a o (some (p, q)) d e =
        let t = with_buffer o (handle_lines now (full (lines a)) c) in
        let w : split_last is_newline (c.buffer ++ (x ++ y)) ≡ some (a ++ (10 ∷ p), q) =
          ap (split_last is_newline) (all a o e)
          ∙ split_last-behind a (o ++ y)
          ∙ rw (d, split_behind) refl in
        ap (λ s. (s.0, t.1 ++ s.1)) (parse_buffer-some now y p q t.0 d)
        ∙ sym (parse_buffer-some now (x ++ y) (a ++ (10 ∷ p)) q c w ∙ with_lines now a p o q c)

    go :
        (r : Option (Text × Text))
        → split_last is_newline (c.buffer ++ x) ≡ r
        → parse_two now x y c ≡ parse_buffer now (x ++ y) c
    go none d =
        ap (λ r. (let s = parse_buffer now y r.0 in (s.0, r.1 ++ s.1)))
          (parse_buffer-none now x c d)
        ∙ sym (parse_buffer-carry now x y c)
    go (some (a, o)) d =
        ap (λ r. (let s = parse_buffer now y r.0 in (s.0, r.1 ++ s.1)))
          (parse_buffer-some now x a o c d)
        ∙ next a o (split_last is_newline (o ++ y)) refl (split_last-joined (c.buffer ++ x) a o d)
