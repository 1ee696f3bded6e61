-- ===== src/Store/Artifacts.antt =====
-- app/seeding/store.py: `put_artifact`, `list_artifacts` (in table order, not by `created_at`) and
-- `latest_artifact`. The content is kept as its canonical JSON; parsing it back is left out.
use seeding_plan_backend.Prelude.{
  ℕ, Bool, Option, none, some, List, [], ◌∷◌, ◌++◌, String, ◌==◌, ◌&&◌, if◌then◌else◌, where_rows,
  first_row,
}
use seeding_plan_backend.Errors.{
  Run, ok, err, integrity_error, unexpected, seeding, artifact_not_found, ◌>>◌,
}
use seeding_plan_backend.Store.{Db, Artifact, transaction, has_project}
use seeding_plan_backend.Store.Rows.{precedes}

-- UNIQUE (project_id, kind, input_sha)
abbrev pub same_artifact : String → String → String → Artifact → Bool
same_artifact project_id kind input_sha row =
    row.project_id == project_id && row.kind == kind && row.input_sha == input_sha

-- INSERT OR IGNORE
unfoldable pub insert_artifact : Artifact → Run Db (Unit {0})
insert_artifact row db =
    elim (first_row (same_artifact row.project_id row.kind row.input_sha) db.artifacts) [
      | some _ ↦ (ok tt, db)
      | none ↦
          if has_project row.project_id db
          then (ok tt, record db { artifacts = db.artifacts ++ row ∷ [] })
          else (err integrity_error, db)
    ]

unfoldable pub select_artifact : String → String → String → Run Db Artifact
select_artifact project_id kind input_sha db =
    elim (first_row (same_artifact project_id kind input_sha) db.artifacts) [
      | some row ↦ (ok row, db)
      | none ↦ (err unexpected, db)
    ]

module _ (sha256 : String → String) (project_id kind input_sha : String) where
  abbrev pub new_artifact : String → String → ℕ → Artifact
  new_artifact artifact_id content_json now = record {
    artifact_id = artifact_id;
    project_id = project_id;
    kind = kind;
    input_sha = input_sha;
    content_sha = sha256 content_json;
    content_json = content_json;
    created_at = now;
  }

  -- The assert on the row, after the transaction, never fails: the row is there or the INSERT raised.
  unfoldable pub put_artifact : String → String → ℕ → Run Db Artifact
  put_artifact artifact_id content_json now = transaction (do
    insert_artifact (new_artifact artifact_id content_json now)
    select_artifact project_id kind input_sha)

pub list_artifacts : String → Db → List Artifact
list_artifacts project_id db =
    where_rows (λ (a : Artifact). a.project_id == project_id) db.artifacts

abbrev pub of_kind : String → String → Artifact → Bool
of_kind project_id kind row = row.project_id == project_id && row.kind == kind

-- ORDER BY created_at DESC, artifact_id DESC LIMIT 1
unfoldable pub latest : List Artifact → Option Artifact
latest [] = none
latest (x ∷ xs) =
    let rest = latest xs in
    elim rest [
      | none ↦ some x
      | some y ↦
          if precedes x.created_at x.artifact_id y.created_at y.artifact_id then some y else some x
    ]

unfoldable pub latest_artifact : String → String → Run Db Artifact
latest_artifact project_id kind db =
    elim (latest (where_rows (of_kind project_id kind) db.artifacts)) [
      | some row ↦ (ok row, db)
      | none ↦ (err (seeding artifact_not_found), db)
    ]
