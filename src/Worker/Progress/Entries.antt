-- ===== src/Worker/Progress/Entries.antt =====
-- The entries of a task's history, and where its final status stands.
use data_info.Common.{Text, ◌≡◌, refl, ap, Bool, true, false, Option, some, List, [], ◌∷◌, ◌++◌}
use data_info.Worker.Progress.{Entry, update, beat, terminal}

-- The progress lines among the entries.
abbrev pub lines_of : List Entry → List Text
lines_of [] = []
lines_of (update line ∷ rest) = line ∷ lines_of rest
lines_of (beat line ∷ rest) = lines_of rest
lines_of (terminal ∷ rest) = lines_of rest

abbrev pub flying : Option Entry → List Text
flying (some (update line)) = line ∷ []
flying _ = []

-- No final status is among the entries.
abbrev pub is_live : List Entry → Bool
is_live [] = true
is_live (terminal ∷ rest) = false
is_live (e ∷ rest) = is_live rest

-- A final status is the last entry, if there is one.
abbrev pub well_ended : List Entry → Bool
well_ended [] = true
well_ended (terminal ∷ []) = true
well_ended (terminal ∷ e ∷ rest) = false
well_ended (update line ∷ rest) = well_ended rest
well_ended (beat line ∷ rest) = well_ended rest

pub lines_of-append : (l m : List Entry) → lines_of (l ++ m) ≡ lines_of l ++ lines_of m
lines_of-append [] m = refl
lines_of-append (update line ∷ l) m = rw (lines_of-append l m)
lines_of-append (beat line ∷ l) m = lines_of-append l m
lines_of-append (terminal ∷ l) m = lines_of-append l m

pub live-append :
    (l : List Entry) (e : Entry)
    → is_live l ≡ true
    → is_live (e ∷ []) ≡ true
    → is_live (l ++ e ∷ []) ≡ true
live-append [] e h k = k
live-append (update line ∷ l) e h k = live-append l e h k
live-append (beat line ∷ l) e h k = live-append l e h k
live-append (terminal ∷ l) e h k = cc h

pub live-well_ended : (l : List Entry) → is_live l ≡ true → well_ended l ≡ true
live-well_ended [] h = refl
live-well_ended (update line ∷ l) h = live-well_ended l h
live-well_ended (beat line ∷ l) h = live-well_ended l h
live-well_ended (terminal ∷ l) h = cc h

pub ended-append : (l : List Entry) → is_live l ≡ true → well_ended (l ++ terminal ∷ []) ≡ true
ended-append [] h = refl
ended-append (update line ∷ l) h = ended-append l h
ended-append (beat line ∷ l) h = ended-append l h
ended-append (terminal ∷ l) h = cc h

pub append_assoc : (a b c : List Text) → (a ++ b) ++ c ≡ a ++ (b ++ c)
append_assoc [] b c = refl
append_assoc (x ∷ a) b c = ap (λ l. x ∷ l) (append_assoc a b c)

pub append_nil : (l : List Text) → l ++ [] ≡ l
append_nil [] = refl
append_nil (x ∷ l) = ap (λ m. x ∷ m) (append_nil l)

pub one_line : (e : Entry) → lines_of (e ∷ []) ≡ flying (some e)
one_line (update line) = refl
one_line (beat line) = refl
one_line terminal = refl
