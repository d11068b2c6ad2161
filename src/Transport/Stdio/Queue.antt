-- ===== src/Transport/Stdio/Queue.antt =====
-- A queue of messages, first in, first out: what two ends of a stream are together.
use mcp_go_sdk.Prelude.{
  ◌≡◌, refl, sym, ap, ◌∙◌, Bool, true, false, Option, none, some, List, [], ◌∷◌, ◌++◌, arith, ◌==◌,
  if◌then◌else◌,
}
use mathlib.Core.List.{append_assoc, append-nil}
use mcp_go_sdk.Shared.Text.{Text, Text_Key}

pub data Op : Type 0 where
  push pop : Text → Op

-- A message can be popped only when it is the oldest one.
unfoldable pub replay : List Op → List Text → Option (List Text)
replay [] queue = some queue
replay (push message ∷ ops) queue = replay ops (queue ++ message ∷ [])
replay (pop message ∷ ops) [] = none
replay (pop message ∷ ops) (oldest ∷ queue) =
    let rest = replay ops queue in if message == oldest then rest else none

unfoldable pub pushed : List Op → List Text
pushed [] = []
pushed (push message ∷ ops) = message ∷ pushed ops
pushed (pop message ∷ ops) = pushed ops

unfoldable pub popped : List Op → List Text
popped [] = []
popped (push message ∷ ops) = popped ops
popped (pop message ∷ ops) = message ∷ popped ops

abbrev pub push_encoded : Option Text → List Op
push_encoded none = []
push_encoded (some message) = push message ∷ []

abbrev pub pop_oldest : List Text → List Op
pop_oldest [] = []
pop_oldest (message ∷ rest) = pop message ∷ []

-- A queue takes what is pushed at its end.
pub replay-push_encoded :
    (done : Bool) (o : Option Text) (queue : List Text)
    → let ops = if done then [] else push_encoded o in replay ops queue ≡ some (queue ++ pushed ops)
unfolding replay pushed
replay-push_encoded true o queue = ap some (sym (append-nil queue))
replay-push_encoded false none queue = ap some (sym (append-nil queue))
replay-push_encoded false (some message) queue = refl

pub replay-append :
    (before after : List Op) (queue rest : List Text)
    → replay before queue ≡ some rest
    → replay (before ++ after) queue ≡ replay after rest
unfolding replay
replay-append [] after queue rest e = ap (replay after) (ground arith)
replay-append (push message ∷ before) after queue rest e =
    replay-append before after (queue ++ message ∷ []) rest e
replay-append (pop message ∷ before) after [] rest e = ground arith
replay-append (pop message ∷ before) after (oldest ∷ queue) rest e =
    ground (arith, replay-append before after queue rest)

pub pushed-append :
    (before after : List Op) → pushed (before ++ after) ≡ pushed before ++ pushed after
unfolding pushed
pushed-append [] after = refl
pushed-append (push message ∷ before) after = ap (λ ms. message ∷ ms) (pushed-append before after)
pushed-append (pop message ∷ before) after = pushed-append before after

pub popped-append :
    (before after : List Op) → popped (before ++ after) ≡ popped before ++ popped after
unfolding popped
popped-append [] after = refl
popped-append (push message ∷ before) after = popped-append before after
popped-append (pop message ∷ before) after = ap (λ ms. message ∷ ms) (popped-append before after)

pub popped-push_encoded :
    (done : Bool) (o : Option Text) → popped (if done then [] else push_encoded o) ≡ []
unfolding popped
popped-push_encoded true o = refl
popped-push_encoded false none = refl
popped-push_encoded false (some message) = refl

pub replay-pop :
    (message oldest : Text) (queue rest : List Text)
    → replay (pop message ∷ []) (oldest ∷ queue) ≡ some rest
    → (message ≡ oldest) × (rest ≡ queue)
unfolding replay
replay-pop message oldest queue rest e = ground (arith, Text_Key.same_iff message oldest)

-- A queue gives out what it held and what was pushed, in that order, and keeps the rest.
pub replayed_in_order :
    (ops : List Op) (queue rest : List Text)
    → replay ops queue ≡ some rest
    → queue ++ pushed ops ≡ popped ops ++ rest
unfolding replay pushed popped
replayed_in_order [] queue rest e = ground (arith, append-nil queue)
replayed_in_order (push message ∷ ops) queue rest e =
    sym (append_assoc queue (message ∷ []) (pushed ops))
    ∙ replayed_in_order ops (queue ++ message ∷ []) rest e
replayed_in_order (pop message ∷ ops) [] rest e = ground arith
replayed_in_order (pop message ∷ ops) (oldest ∷ queue) rest e =
    ground (arith, replayed_in_order ops queue rest, Text_Key.same_iff message oldest)
