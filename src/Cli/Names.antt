-- ===== src/Cli/Names.antt =====
-- sync/cli.py: an argument that is a comma separated list.
use aa_metadata_worker.Prelude.{Text, List, nonempty, map, filter}
use aa_metadata_worker.Unicode.{Unicode}
use aa_metadata_worker.Normalize.{strip}
use aa_metadata_worker.Sources.FileName.{split_on}

-- `[c.strip() for c in raw.split(",") if c.strip()]`
unfoldable pub split_names : Unicode → Text → List Text
unfolding split_on strip
split_names u raw = filter nonempty (map (strip u.is_space) (split_on 44 raw))
