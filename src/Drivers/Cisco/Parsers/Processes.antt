-- ===== src/Drivers/Cisco/Parsers/Processes.antt =====
-- Routing processes that are printed as a configuration are read back.
use terraformer.Base.{
  ◌≡◌, refl, ap, sym, ◌∙◌, true, false, some, List, [], ◌∷◌, ◌++◌, append-nil, append_assoc, All,
  All-append,
}
use terraformer.Text.{Text, codes, is_break, is_space, join, after_prefix}
use terraformer.Text.Lines.{IsLine, IsCommand, newline, splitlines-join}
use terraformer.Text.Strip.{IsTrimmed}
use terraformer.Text.Ends.{strip-space, after_prefix-append}
use terraformer.Drivers.Facts.{RoutingProcessFacts}
use terraformer.Drivers.Cisco.Render.Commands.{command}
use terraformer.Drivers.Cisco.Parsers.{
  Blocks, flush, is_separator, closed, read_inside, read_header, read_line, read_lines,
  parse_routing_processes,
}

-- A statement that a configuration can hold under its process: one line, trimmed and no separator.
abbrev pub IsStatement : Text → Type 0
IsStatement s = (IsLine s × IsTrimmed s) × (is_separator s ≡ false)

abbrev pub IsProcess : RoutingProcessFacts → Type 0
IsProcess p = (IsLine p.name × IsTrimmed p.name) × All IsStatement p.statements

abbrev pub indented : List Text → List Text
indented [] = []
indented (s ∷ ss) = (b' ' ∷ s) ∷ indented ss

-- The lines of a configuration: a header for each process and its statements, indented, below it.
abbrev pub lines_of : List RoutingProcessFacts → List Text
lines_of [] = []
lines_of (p ∷ ps) = (codes "router " ++ p.name) ∷ (indented p.statements ++ lines_of ps)

abbrev open_block : List RoutingProcessFacts → Text → List Text → Blocks
open_block processes name statements = record {
  processes = processes;
  name = some name;
  statements = statements;
}

read_line-header :
    (name : Text) (b : Blocks)
    → IsTrimmed name
    → read_line (codes "router " ++ name) b ≡ open_block (flush b) name []
unfolding read_line read_header
read_line-header name b t = rw (after_prefix-append (codes "router ") name, t) refl

read_line-statement :
    (s : Text) (done : List RoutingProcessFacts) (name : Text) (before : List Text)
    → IsStatement s
    → read_line (b' ' ∷ s) (open_block done name before) ≡ open_block done name (before ++ s ∷ [])
unfolding read_line read_header read_inside after_prefix is_space
read_line-statement s done name before h = rw (strip-space b' ' s blank, h.0.1, h.1) refl
  where
    blank : is_space b' ' ≡ true
    blank = refl

read_lines-indented :
    (ss rest : List Text) (done : List RoutingProcessFacts) (name : Text) (before : List Text)
    → All IsStatement ss
    → read_lines (indented ss ++ rest) (open_block done name before)
      ≡ read_lines rest (open_block done name (before ++ ss))
unfolding read_lines
read_lines-indented [] rest done name before h =
    ap (λ l. read_lines rest (open_block done name l)) (sym (append-nil before))
read_lines-indented (s ∷ ss) rest done name before h =
    ap (read_lines (indented ss ++ rest)) (read_line-statement s done name before h.0)
    ∙ read_lines-indented ss rest done name (before ++ s ∷ []) h.1
    ∙ ap (λ l. read_lines rest (open_block done name l)) (append_assoc before (s ∷ []) ss)

flush-read_lines :
    (ps : List RoutingProcessFacts) (b : Blocks)
    → All IsProcess ps
    → flush (read_lines (lines_of ps) b) ≡ flush b ++ ps
unfolding read_lines flush
flush-read_lines [] b h = sym (append-nil (flush b))
flush-read_lines (p ∷ ps) b h =
    ap (λ c. flush (read_lines (indented p.statements ++ lines_of ps) c))
      (read_line-header p.name b h.0.0.1)
    ∙ ap flush (read_lines-indented p.statements (lines_of ps) (flush b) p.name [] h.0.1)
    ∙ flush-read_lines ps (open_block (flush b) p.name p.statements) h.1
    ∙ append_assoc (flush b) (p ∷ []) ps

indented-IsCommand : (ss : List Text) → All IsStatement ss → All IsCommand (indented ss)
unfolding is_break
indented-IsCommand [] h = tt
indented-IsCommand (s ∷ ss) h = (command (codes " ") s refl refl h.0.0.0, indented-IsCommand ss h.1)

lines_of-IsCommand :
    (ps : List RoutingProcessFacts) → All IsProcess ps → All IsCommand (lines_of ps)
unfolding is_break
lines_of-IsCommand [] h = tt
lines_of-IsCommand (p ∷ ps) h = (
  command (codes "router ") p.name refl refl h.0.0.0,
  All-append IsCommand (indented p.statements) (lines_of ps) (indented-IsCommand p.statements h.0.1)
      (lines_of-IsCommand ps h.1),
)

-- Processes whose names and statements are trimmed single lines, no statement empty or `!`, are read
-- back exactly as they are from a configuration that prints each as a header with its statements
-- indented below it.
pub parse-lines_of :
    (ps : List RoutingProcessFacts)
    → All IsProcess ps
    → parse_routing_processes (join newline (lines_of ps)) ≡ ps
unfolding parse_routing_processes flush
parse-lines_of ps h =
    ap (λ l. flush (read_lines l (closed [])))
      (splitlines-join (lines_of ps) (lines_of-IsCommand ps h))
    ∙ flush-read_lines ps (closed []) h
