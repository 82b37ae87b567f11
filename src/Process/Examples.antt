-- ===== src/Process/Examples.antt =====
-- A capture of four bytes, of an output of seven.
use imece_ide.Base.{◌+◌, ◌≤◌, ◌≡◌, refl, false, List, [], ◌∷◌, length, ok}
use imece_ide.Process.{BoundedCapture, Read, chunk, new_capture, consume, text, cut}
use imece_ide.Process.Exact.{consume-text}

abbrev reads : List Read
reads = chunk (1 ∷ 2 ∷ 3 ∷ []) ∷ chunk (4 ∷ 5 ∷ 6 ∷ 7 ∷ []) ∷ chunk [] ∷ []

abbrev fresh : BoundedCapture
fresh = record {
  limit = 4;
  head_limit = 2;
  tail_limit = 2;
  head = [];
  tail = [];
  total = 0;
  has_error = false;
}

opened : new_capture 4 ≡ ok fresh
unfolding new_capture
opened = refl

consume-text_example :
    (text (consume reads fresh) ≡ cut (1 ∷ 2 ∷ []) 3 (6 ∷ 7 ∷ []))
    × (length (consume reads fresh).head + length (consume reads fresh).tail ≤ 4)
consume-text_example = consume-text 4 reads fresh opened
