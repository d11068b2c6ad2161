-- ===== src/Transport/Stdio/Lines.antt =====
-- transport/stdio.go: what a line of the stream is to the scanner, and what the writer makes of a
-- message.
use mcp_go_sdk.Prelude.{
  ℕ, ◌<◌, ◌≡◌, ◌≢◌, refl, true, false, none, List, [], ◌∷◌, ◌++◌, Bool, length, arith, ltb,
}
use mathlib.Core.List.{append_assoc}
use mcp_go_sdk.Shared.Text.{Text}
use mcp_go_sdk.Shared.UriTemplate.Names.{Lacks, cut_at}
use mcp_go_sdk.Transport.Stdio.{
  Sink, Writer, flush, write, write_rest, write_through, write_byte, scan, token, drop_cr,
}

-- A message that the stream carries: a line of its own that is not empty, without a carriage return
-- at its end, which the reader's buffer holds with its newline
abbrev pub Fits : ℕ → Text → Type 0
Fits size message =
    (message ≢ []) × Lacks 10 message × (drop_cr message ≡ message) × (length message < size)

abbrev pub wire : List Text → Text
wire [] = []
wire (message ∷ rest) = message ++ 10 ∷ wire rest

pub wire-append : (xs ys : List Text) → wire (xs ++ ys) ≡ wire xs ++ wire ys
wire-append [] ys = refl
wire-append (x ∷ xs) ys = rw (wire-append xs ys, append_assoc x (10 ∷ wire xs) (wire ys)) refl

pub scan_line :
    (size : ℕ) (eof : Bool) (message rest : Text)
    → Fits size message
    → scan size eof (message ++ 10 ∷ rest) ≡ token message rest
unfolding scan
scan_line size eof message rest (full, lacks, plain, fits) =
    let short : ltb (length message) size ≡ true = ground arith in
    rw (scan, cut_at 10 message rest lacks, short, plain) refl

abbrev pub accepts : Sink
accepts held chunk = none

-- What one message does to a writer whose stream takes everything
abbrev pub written : Text → Writer → Writer
written message w = flush accepts (write_byte accepts 10 (write accepts message w))

pub write-accepted :
    (message : Text) (w : Writer)
    → w.failed ≡ false
    → w.buffered ≡ []
    → (write accepts message w).failed ≡ false
unfolding write write_rest write_through
write-accepted message w ok clean = ground arith

pub write_byte-accepted :
    (message : Text) (w : Writer)
    → w.failed ≡ false
    → w.buffered ≡ []
    → (write_byte accepts 10 (write accepts message w)).failed ≡ false
unfolding write write_rest write_through write_byte flush
write_byte-accepted message w ok clean = ground arith

pub written-buffered :
    (message : Text) (w : Writer)
    → w.failed ≡ false
    → w.buffered ≡ []
    → (written message w).buffered ≡ []
unfolding write write_rest write_through write_byte flush
written-buffered message w ok clean = ground arith

pub written-failed :
    (message : Text) (w : Writer)
    → w.failed ≡ false
    → w.buffered ≡ []
    → (written message w).failed ≡ false
unfolding write write_rest write_through write_byte flush
written-failed message w ok clean = ground arith

pub written-stream :
    (message : Text) (w : Writer)
    → w.failed ≡ false
    → w.buffered ≡ []
    → (written message w).written ≡ w.written ++ message ++ 10 ∷ []
unfolding write write_rest write_through write_byte flush
written-stream message w ok clean = ground (arith, append_assoc w.written message (10 ∷ []))
