-- ===== src/GoText.antt =====
-- What the program uses of Go's `strings` and `path` packages (the standard library), over bytes.
pub mod Space
pub mod Split
pub mod Length
pub mod Cut
pub mod Canonical
use data_info.Common.{
  ℕ, suc, ◌+◌, Text, text_eq, lit, Bool, true, false, not, ◌&&◌, ◌||◌, List, [], ◌∷◌, ◌++◌, reverse,
  ◌==◌, if◌then◌else◌,
}

-- '/'
abbrev pub slash : ℕ
slash = 47

trim_cons : ℕ → Text → Text
trim_cons c [] = if c == slash then [] else c ∷ []
trim_cons c (d ∷ r) = c ∷ d ∷ r

-- strings.TrimRight(p, "/")
unfoldable pub trim_right : Text → Text
unfolding trim_cons
trim_right [] = []
trim_right (c ∷ p) = trim_cons c (trim_right p)

split_cons : ℕ → List Text → List Text
split_cons c [] = (c ∷ []) ∷ []
split_cons c (h ∷ t) = if c == slash then [] ∷ h ∷ t else (c ∷ h) ∷ t

-- strings.Split(p, "/")
unfoldable pub split : Text → List Text
unfolding split_cons
split [] = [] ∷ []
split (c ∷ p) = split_cons c (split p)

-- strings.Join(elements, "/")
unfoldable pub join_slash : List Text → Text
join_slash [] = []
join_slash (h ∷ []) = h
join_slash (h ∷ h' ∷ t) = h ++ slash ∷ join_slash (h' ∷ t)

-- strings.Count(p, "/")
unfoldable pub count_slash : Text → ℕ
count_slash [] = 0
count_slash (c ∷ p) = (if c == slash then 1 else 0) + count_slash p

abbrev dot : Text
dot = 46 ∷ []

abbrev dot_dot : Text
dot_dot = 46 ∷ 46 ∷ []

-- ".." against the elements kept so far, the last one first: a rooted path stops at its root, and a
-- relative one keeps a ".." that it cannot apply.
climb : Bool → List Text → List Text
climb rooted [] = if rooted then [] else dot_dot ∷ []
climb rooted (h ∷ t) = if text_eq h dot_dot then dot_dot ∷ h ∷ t else t

-- One element of a path: empty ones and "." go, ".." takes back the one before it.
push_element : Bool → List Text → Text → List Text
unfolding climb
push_element rooted stack e =
    if text_eq e [] || text_eq e dot
    then stack
    else if text_eq e dot_dot
    then climb rooted stack
    else e ∷ stack

resolve : Bool → List Text → List Text → List Text
unfolding push_element
resolve rooted stack [] = stack
resolve rooted stack (e ∷ rest) = resolve rooted (push_element rooted stack e) rest

is_rooted : Text → Bool
is_rooted [] = false
is_rooted (c ∷ p) = c == slash

render : Bool → List Text → Text
unfolding join_slash
render true elements = slash ∷ join_slash elements
render false [] = dot
render false (h ∷ t) = join_slash (h ∷ t)

-- path.Clean
unfoldable pub clean : Text → Text
unfolding render resolve split is_rooted
clean p = render (is_rooted p) (reverse (resolve (is_rooted p) [] (split p)))

-- The buffer of path.Join: the elements from the first one that is not empty, with slashes between.
join_buffer : Text → List Text → Text
join_buffer [] [] = []
join_buffer [] (e ∷ rest) = join_buffer e rest
join_buffer (c ∷ buf) [] = c ∷ buf
join_buffer (c ∷ buf) (e ∷ rest) = join_buffer ((c ∷ buf) ++ slash ∷ e) rest

clean_or_empty : Text → Text
unfolding clean
clean_or_empty [] = []
clean_or_empty (c ∷ p) = clean (c ∷ p)

-- path.Join
unfoldable pub path_join : List Text → Text
unfolding join_buffer clean_or_empty
path_join elements = clean_or_empty (join_buffer [] elements)

-- What follows the last slash, and what stands up to it, the slash included: path.Split.
pub after_slash : Text → Text
after_slash [] = []
after_slash (c ∷ p) =
    let rest = after_slash p in
    if c == slash
    then (if count_slash p == 0 then p else rest)
    else if count_slash p == 0
    then c ∷ p
    else rest

pub up_to_slash : Text → Text
unfolding count_slash
up_to_slash [] = []
up_to_slash (c ∷ p) = if c == slash || not (count_slash p == 0) then c ∷ up_to_slash p else []

base_of : Text → Text
base_of [] = slash ∷ []
base_of (c ∷ p) = c ∷ p

-- path.Base: "." for no path, "/" for slashes alone.
unfoldable pub path_base : Text → Text
unfolding trim_right after_slash base_of count_slash
path_base [] = dot
path_base (c ∷ p) = base_of (after_slash (trim_right (c ∷ p)))

-- path.Dir
unfoldable pub path_dir : Text → Text
unfolding clean up_to_slash
path_dir p = clean (up_to_slash p)
