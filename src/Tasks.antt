-- ===== src/Tasks.antt =====
-- internal/clients/asynctasks: the records of long-running work, and the values that a task's data
-- holds once its JSON has been decoded. A Go map is an association list: looked up from the front.
use data_info.Common.{ℕ, Text, lit, text_eq, Bool, Option, none, some, List, if◌then◌else◌}

mutual
  -- A decoded JSON value: map[string]any holds these.
  pub data Json : Type 0 where
    null : Json
    flag : Bool → Json
    number : ℕ → Json
    text : Text → Json
    array : Items → Json
    object : Fields → Json

  pub data Items : Type 0 where
    nil : Items
    cons : Json → Items → Items

  pub data Fields : Type 0 where
    end : Fields
    field : Text → Json → Fields → Fields

-- data[key]
unfoldable pub get : Text → Fields → Option Json
get key end = none
get key (field k v rest) = if text_eq k key then some v else get key rest

pub record Status : Type 0 where
  pub status : Text
  pub detail : Text

pub record Task : Type 0 where
  pub id : Text
  pub kind : Text
  pub username : Text
  pub body : Fields

abbrev pub type_move : Text
type_move = lit "data-move"

abbrev pub type_rename : Text
type_rename = lit "data-rename"

abbrev pub type_delete : Text
type_delete = lit "data-delete"

abbrev pub type_delete_trash : Text
type_delete_trash = lit "data-delete-trash"

abbrev pub type_restore : Text
type_restore = lit "data-restore"

abbrev pub status_registered : Text
status_registered = lit "registered"

abbrev pub status_started : Text
status_started = lit "started"

abbrev pub status_running : Text
status_running = lit "running"

abbrev pub status_completed : Text
status_completed = lit "completed"

abbrev pub status_failed : Text
status_failed = lit "failed"

-- The part of a Filter that the lock check sets. A time is in seconds since 1970.
pub record Filter : Type 0 where
  pub types : List Text
  pub include_null_end : Bool
  pub end_date_since : Option ℕ
