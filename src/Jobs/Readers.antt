-- ===== src/Jobs/Readers.antt =====
-- What the strict readers of task data tell: nothing that the task says is lost.
use mathlib.Core.Option
use data_info.Common.{Text, ◌≡◌, refl, Option, none, some, List, arith, Result, ok, err}
use data_info.Tasks.{Json, null, flag, number, text, array, object, Fields, end, field, get}
use data_info.Jobs.{put_text, texts_by_key, map_in, map_from, find}

texts_by_key-get :
    (inner : Fields) (m : List (Text × Text))
    → texts_by_key inner ≡ ok m
    → (k : Text) → get k inner ≡ Option.map text (find k m)
unfolding texts_by_key put_text find get
texts_by_key-get end m e k = cc e
texts_by_key-get (field n null rest) m e k = cc e
texts_by_key-get (field n (flag b) rest) m e k = cc e
texts_by_key-get (field n (number b) rest) m e k = cc e
texts_by_key-get (field n (array b) rest) m e k = cc e
texts_by_key-get (field n (object b) rest) m e k = cc e
texts_by_key-get (field n (text s) rest) m e k =
    from (λ l a. texts_by_key-get rest l a k) (texts_by_key rest) refl e
  where
    from :
        ((l : List (Text × Text))
          → texts_by_key rest ≡ ok l
          → get k rest ≡ Option.map text (find k l))
        → (r : Result (List (Text × Text))) → texts_by_key rest ≡ r
        → put_text n s r ≡ ok m
        → get k (field n (text s) rest) ≡ Option.map text (find k m)
    from others (err x) a b = cc b
    from others (ok l) a b = ground (arith, b, others l a)

-- A map that was read from a task's data comes from an object, and tells of every key what the object
-- says: a key that the map lacks is not in the object, so no value has been dropped.
pub map_from-get :
    (fields : Fields) (key : Text) (m : List (Text × Text))
    → map_from fields key ≡ ok m
    → (inner : Fields) × (get key fields ≡ some (object inner))
      × ((k : Text) → get k inner ≡ Option.map text (find k m))
unfolding map_from map_in
map_from-get fields key m e = from (get key fields) refl e
  where
    from :
        (o : Option Json)
        → get key fields ≡ o
        → map_in o ≡ ok m
        → (inner : Fields) × (get key fields ≡ some (object inner))
          × ((k : Text) → get k inner ≡ Option.map text (find k m))
    from none a b = cc b
    from (some null) a b = cc b
    from (some (flag f)) a b = cc b
    from (some (number n)) a b = cc b
    from (some (text s)) a b = cc b
    from (some (array l)) a b = cc b
    from (some (object inner)) a b = (inner, a, texts_by_key-get inner m b)
