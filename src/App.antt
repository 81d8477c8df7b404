-- ===== src/App.antt =====
-- internal/app/runtime.go: the paths that the engine may open, and the sources that it reports.
-- `path_of` is the "path" option of a source's JSON, if it decodes and the field is not empty.
pub mod Paths
pub mod Reload
pub mod Running
use quackridge.Prelude.{◌+◌, ap, ◌&&◌, ◌||◌, Option, none, some, List, [], ◌∷◌, ◌++◌, if◌then◌else◌}
use quackridge.Prelude.Text.{Text, lit, text_eq, is_empty}
use quackridge.Prelude.Sort.{sort}
use quackridge.Prelude.Maps.{Map, insert}
use quackridge.Config.Document.{Source}
use quackridge.Policy.Sources.{add_to_set}
use quackridge.Service.Defs.{SourceStatus}
use quackridge.Engine.Runtime.Metadata.{list_sources}

-- The paths of one source.
unfoldable pub source_paths : (path_of : Text → Option Text) → Source → List Text
source_paths path_of s =
    let is_duckdb = text_eq s.kind (lit "duckdb") in
    elim (path_of s.options) [
      | none ↦ []
      | some path ↦
          if s.enabled && (text_eq s.kind (lit "sqlite") || is_duckdb)
          then path ∷ (if is_duckdb then (path ++ lit ".wal") ∷ [] else [])
          else []
    ]

-- filePaths
unfoldable pub file_paths : (path_of : Text → Option Text) → List Source → List Text
file_paths path_of [] = []
file_paths path_of (s ∷ rest) = source_paths path_of s ++ file_paths path_of rest

-- The loop over one group.
unfoldable pub add_paths : List Text → List Text → List Text
add_paths set [] = set
add_paths set (p ∷ rest) = add_paths (if is_empty p then set else add_to_set p set) rest

unfoldable pub add_groups : List Text → List (List Text) → List Text
add_groups set [] = set
add_groups set (group ∷ rest) = add_groups (add_paths set group) rest

-- mergePaths
unfoldable pub merge_paths : List (List Text) → List Text
merge_paths groups = sort (add_groups [] groups)

-- byID of sourcesLocked, from the engine's statuses and then the failures.
unfoldable pub by_id : Map SourceStatus → List SourceStatus → Map SourceStatus
by_id m [] = m
by_id m (s ∷ rest) = by_id (insert s.id s m) rest

-- sourcesLocked
unfoldable pub sources_locked : (sources failures : List SourceStatus) → List SourceStatus
sources_locked sources failures = list_sources (by_id (by_id [] sources) failures)
