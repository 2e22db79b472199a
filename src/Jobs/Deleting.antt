-- ===== src/Jobs/Deleting.antt =====
-- internal/jobs/delete.go, and TicketsUnder of internal/rods/tickets.go.
use data_info.Common.{
  Text, lit, text_eq, has_prefix, any, Bool, true, ◌||◌, ◌&&◌, Option, none, some, List, [], ◌∷◌,
  ◌++◌, if◌then◌else◌, Exec, pure, wrapping, ◌>>=◌, ◌>>◌,
}
use data_info.GoText.{slash, trim_right}
use data_info.Tasks.{Task}
use data_info.Jobs.{
  Ticket, Scope, Deps, strings_from, map_from, find, lift, report, move_one, using_scope,
}

-- normalizePath
unfoldable pub normalize_path : Text → Text
normalize_path p = if text_eq p (slash ∷ []) then p else trim_right p

-- matchTickets
unfoldable pub match_tickets : List Ticket → Text → Bool → List Ticket
unfolding normalize_path
match_tickets [] path include_descendants = []
match_tickets (ticket ∷ rest) path include_descendants =
    let on = trim_right ticket.on in
    let others = match_tickets rest path include_descendants in
    if text_eq on (normalize_path path)
      || (include_descendants && has_prefix on (normalize_path path ++ slash ∷ []))
    then ticket ∷ others
    else others

-- TicketsUnder
unfoldable pub tickets_under : List Ticket → Text → List Ticket
unfolding match_tickets
tickets_under all path = match_tickets all path true

-- partitionByTrash
unfoldable pub partition_by_trash : List Text → List (Text × Text) → List Text × List Text
unfolding find
partition_by_trash [] trash_paths = ([], [])
partition_by_trash (path ∷ rest) trash_paths =
    let (trashed, deleted) = partition_by_trash rest trash_paths in
    elim (find path trash_paths) [
      | some destination ↦ (path ∷ trashed, deleted)
      | none ↦ (trashed, path ∷ deleted)
    ]

module _ {W : Type 0} (deps : Deps W) (scope : Scope W) where
  -- deleteTickets: the names removed so far are returned.
  unfoldable pub delete_tickets : List Ticket → List Text → Exec W (List Text)
  delete_tickets [] deleted = pure deleted
  delete_tickets (ticket ∷ rest) deleted = do
    more ← if any (text_eq ticket.name) deleted then pure deleted else do
      wrapping "deleting ticket %q on %q" (scope.remove_ticket ticket.name)
      pure (ticket.name ∷ deleted)
    delete_tickets rest more

  -- The tickets, listed at the first path and kept.
  unfoldable pub listed_tickets : Option (List Ticket) → Exec W (List Ticket)
  listed_tickets (some tickets) = pure tickets
  listed_tickets none = wrapping "listing the tickets on %q" scope.tickets

  module _ (user : Text) (trash_paths : List (Text × Text)) where
    -- A path goes to the trash, where that is named, and is removed for good where it is not.
    unfoldable pub trash_or_remove : Text → Option Text → Exec W (Unit {0})
    unfolding report move_one
    trash_or_remove path none = do
      wrapping "deleting %q" (scope.remove path true)
      report deps path (lit "end-delete")
    trash_or_remove path (some trash_path) = do
      move_one deps scope user path trash_path
      wrapping "recording where %q came from" (
          scope.set_avu trash_path (record {
            attribute = lit "ipc-trash-origin";
            value = path;
            unit = lit "ipc-system-avu";
          }))
      report deps path (lit "set-trash-path-metadata")
      report deps path (lit "end-delete")

    unfoldable pub delete_each : List Text → Option (List Ticket) → List Text → Exec W (Unit {0})
    unfolding report listed_tickets delete_tickets trash_or_remove find tickets_under
    delete_each [] tickets deleted = pure tt
    delete_each (path ∷ rest) tickets deleted = do
      wrapping "the delete was stopped after %d of %d paths" deps.still_running
      report deps path (lit "begin-delete")
      all ← listed_tickets tickets
      more ← delete_tickets (tickets_under all path) deleted
      report deps path (lit "deleted-tickets")
      trash_or_remove path (find path trash_paths)
      delete_each rest (some all) more

    -- delete
    unfoldable pub delete_paths : List Text → Exec W (Unit {0})
    unfolding report delete_each
    delete_paths requested = do
      report deps (lit "deleted paths") (lit "begin")
      delete_each requested none []
      report deps (lit "deleted paths") (lit "end")

-- Delete.Run
unfoldable pub run_delete : {W : Type 0} → Deps W → Task → Exec W (Unit {0})
unfolding strings_from map_from using_scope delete_paths
run_delete deps task = do
  requested ← lift (strings_from task.body (lit "paths"))
  trash_paths ← lift (map_from task.body (lit "trash-paths"))
  using_scope deps deps.proxy_user
      (λ scope. delete_paths deps scope task.username trash_paths requested)
