-- ===== src/Examples/Upkeep.antt =====
-- Migrations, the bearer token, the cache of the counts, the purge, and the lines of a frame.
use aa_metadata_worker.Prelude.{
  zero, suc, ltb, drop, take, Bool, ◌++◌, ap, ◌∙◌, sym, append_assoc, length-append, nonempty, ℕ,
  ◌+◌, ◌<◌, ◌≡◌, refl, Text, true, false, none, some, List, [], ◌∷◌, codes, lookup, if◌then◌else◌,
  ◌==◌, ◌⊎◌, length, arith, text_discrete, text_eq, nat_discrete, sorted,
}
use aa_metadata_worker.Result.{Exception, Result, ok, err}
use aa_metadata_worker.Unicode.{ascii}
use aa_metadata_worker.Database.{Row, Db}
use aa_metadata_worker.Importer.Params.{record_to_params}
use aa_metadata_worker.Control.{Response, answer}
use aa_metadata_worker.Migrations.{
  list_migrations, Schema, apply_loop, apply_migrations, sort_versions, insert_version,
  migration_version, is_sql_name, migrate,
}
use aa_metadata_worker.Migrations.Applied.{IsApplied, pending}
use aa_metadata_worker.Migrations.Order.{
  IsAscending, apply_migrations-IsApplied, apply_migrations-idempotent,
}
use aa_metadata_worker.Auth.{Request, auth_exempt, startswith, not_ascii, unauthorized, bearer_auth}
use aa_metadata_worker.Auth.Guarded.{Carries, bearer_auth-guards}
use aa_metadata_worker.Discovery.{strip_prefix}
use aa_metadata_worker.Normalize.{four_digits}
use aa_metadata_worker.CountCache.{
  CacheKey, key_eq, Snapshot, CountState, fresh_start, ttl, current_counts, finish_refresh,
  CountReach, here, next, asks,
}
use aa_metadata_worker.CountCache.Single.{IsSingle, CountReach-IsSingle, finish_refresh-current}
use aa_metadata_worker.Cli.Names.{split_names}
use aa_metadata_worker.Cli.Purge.{Store, Medium, no_backups, cmd_purge_sources}
use aa_metadata_worker.Cli.Purge.Safe.{IsBackedUp, OfMedium, cmd_purge_sources-IsBackedUp}
use aa_metadata_worker.Importer.Frames.{
  Decompressor, read_scan, find_magic, chunk_loop, feed_chunks, decode_frame, frames_loop,
  iter_frames,
}
use aa_metadata_worker.Importer.Frames.Intact.{Streams, joined, ends, iter_frames-joined}
use aa_metadata_worker.Importer.Frames.Total.{iter_frames-ends}
use aa_metadata_worker.Examples.{book, one_release}

abbrev directory : List Text
directory = codes "0002_jobs.sql" ∷ codes "README.md" ∷ codes "0001_init.sql" ∷ []

abbrev empty_schema : Schema (List Text)
empty_schema = record { versions = []; tables = [] }

-- A migration adds its name.
abbrev run_sql : Text → List Text → Result (List Text)
run_sql name names = ok (name ∷ names)

abbrev versions : List ℕ
versions = 1 ∷ 2 ∷ []

both_apply : (apply_migrations run_sql ascii directory empty_schema).0 ≡ ok versions
unfolding apply_migrations apply_loop list_migrations sort_versions insert_version migration_version
    is_sql_name four_digits migrate sorted nat_discrete text_discrete
both_apply = refl

apply_migrations-IsApplied_example :
    IsAscending (list_migrations ascii directory)
    × IsApplied run_sql
        (pending 0 (list_migrations ascii directory))
        empty_schema
        (apply_migrations run_sql ascii directory empty_schema)
apply_migrations-IsApplied_example = apply_migrations-IsApplied run_sql ascii directory empty_schema

apply_migrations-idempotent_example :
    apply_migrations run_sql ascii directory
      (apply_migrations run_sql ascii directory empty_schema).1
    ≡ (ok [], (apply_migrations run_sql ascii directory empty_schema).1)
apply_migrations-idempotent_example =
    apply_migrations-idempotent run_sql ascii directory empty_schema versions both_apply

abbrev request : Request
request = record { path = codes "/api/v1/records"; authorization = codes "Bearer secret" }

abbrev serve : Request → Result (Response Text)
serve r = ok (answer r.path)

guarded : auth_exempt request.path ≡ false
unfolding auth_exempt startswith strip_prefix text_discrete nat_discrete
guarded = refl

bearer_auth-guards_example :
    (bearer_auth ascii (codes "secret") serve request ≡ ok unauthorized)
    ⊎ ((bearer_auth ascii (codes "secret") serve request ≡ err not_ascii)
        ⊎ ((bearer_auth ascii (codes "secret") serve request ≡ serve request)
            × Carries ascii (codes "secret") request.authorization))
bearer_auth-guards_example = bearer_auth-guards ascii (codes "secret") serve request refl guarded

abbrev count_key : CacheKey
count_key = (codes "zlib3_records" ∷ [], none)

abbrev other_key : CacheKey
other_key = (codes "ia2_records" ∷ [], none)

abbrev counted : Snapshot
counted = ((codes "zlib3_records", 5) ∷ [], 7)

abbrev refreshing : CountState
refreshing = record { cache = none; refresh_key = some count_key; running = count_key ∷ [] }

asked : CountReach (current_counts true count_key 3 fresh_start).1
asked = next here (asks true count_key 3 fresh_start)

CountReach-IsSingle_example :
    IsSingle (current_counts true other_key 4 (current_counts true count_key 3 fresh_start).1).1
CountReach-IsSingle_example =
    CountReach-IsSingle
      (next asked (asks true other_key 4 (current_counts true count_key 3 fresh_start).1))

finish_refresh-current_example :
    ((current_counts true other_key 9
        (finish_refresh count_key 8 (some counted) [] [] refreshing)).0
      ≡ (if other_key == count_key then some counted else none))
    × (9 < 8 + ttl
        → (current_counts true count_key 9
            (finish_refresh count_key 8 (some counted) [] [] refreshing)).1
          ≡ finish_refresh count_key 8 (some counted) [] [] refreshing)
finish_refresh-current_example =
    finish_refresh-current true count_key other_key 8 9 counted [] [] refreshing refl

abbrev row : Row
row = record_to_params ascii (record book { source_collection = codes "zlib3_records" })

abbrev md5 : Text
md5 = 1 ∷ 2 ∷ []

abbrev filled : Db
filled = record one_release { records = (md5, row) ∷ [] }

abbrev store : Store
store = record { db = filled; locked = false; backups = no_backups }

abbrev medium : Medium
medium = record { write = λ table. ok tt; vacuum = ok tt }

cmd_purge_sources-IsBackedUp_example :
    ((cmd_purge_sources medium ascii (codes "ia2_records") true [] store).1.locked ≡ store.locked)
    × IsBackedUp
        (split_names ascii (codes "ia2_records"))
        store
        (cmd_purge_sources medium ascii (codes "ia2_records") true [] store).1
    × ((e : Exception)
        → (cmd_purge_sources medium ascii (codes "ia2_records") true [] store).0 ≡ err e
        → OfMedium medium e)
cmd_purge_sources-IsBackedUp_example =
    cmd_purge_sources-IsBackedUp medium ascii (codes "ia2_records") true [] store

row_stored : lookup md5 filled.records ≡ some row
unfolding lookup text_discrete
row_stored = refl

abbrev two_lines : Text
two_lines = 97 ∷ 10 ∷ 32 ∷ 98 ∷ 13 ∷ 10 ∷ []

-- A frame of four bytes and one of content, which has to lie in one chunk.
abbrev five_bytes : Text → Result (Text × Text)
five_bytes (m1 ∷ m2 ∷ m3 ∷ m4 ∷ c ∷ rest) = ok (c ∷ [], rest)
five_bytes _ = err not_ascii

abbrev decompressor : Decompressor
decompressor = record {
  Obj = Text;
  fresh = [];
  decompress = λ obj chunk. five_bytes chunk;
  eof = λ obj. true;
  unused_data = λ obj. obj;
}

five_bytes-final :
    (obj obj' chunk out : Text)
    → five_bytes chunk ≡ ok (out, obj')
    → true ≡ true
    → length obj' < length chunk
five_bytes-final obj obj' (m1 ∷ m2 ∷ m3 ∷ m4 ∷ c ∷ rest) out h e = ground (arith, h)
five_bytes-final obj obj' [] out h e = absurd (cc)
five_bytes-final obj obj' (m1 ∷ []) out h e = absurd (cc)
five_bytes-final obj obj' (m1 ∷ m2 ∷ []) out h e = absurd (cc)
five_bytes-final obj obj' (m1 ∷ m2 ∷ m3 ∷ []) out h e = absurd (cc)
five_bytes-final obj obj' (m1 ∷ m2 ∷ m3 ∷ m4 ∷ []) out h e = absurd (cc)

abbrev payload : Text
payload = 40 ∷ 181 ∷ 47 ∷ 0 ∷ 40 ∷ 181 ∷ 47 ∷ 253 ∷ 65 ∷ 40 ∷ 181 ∷ 47 ∷ 253 ∷ 66 ∷ 0 ∷ []

-- The bytes before and after the two frames are skipped.
two_frames : iter_frames decompressor payload ≡ some ((9, codes "A") ∷ (14, codes "B") ∷ [])
unfolding iter_frames frames_loop read_scan find_magic decode_frame feed_chunks chunk_loop
    strip_prefix nat_discrete
two_frames = refl

iter_frames-ends_example :
    (frames : List (ℕ × Text)) × (iter_frames decompressor payload ≡ some frames)
iter_frames-ends_example = iter_frames-ends decompressor five_bytes-final payload

-- A frame of five bytes that is read piece by piece: the bytes so far, or those that are left over.
data Reading : Type 0 where
  reading : Text → Reading
  finished : Text → Reading

abbrev read_on : Text → Result (Text × Reading)
read_on bytes =
    if ltb (length bytes) 5
    then ok ([], reading bytes)
    else ok (drop 4 (take 5 bytes), finished (drop 5 bytes))

abbrev so_far : Reading → Text
so_far (reading bytes) = bytes
so_far (finished bytes) = []

abbrev is_finished : Reading → Bool
is_finished (reading bytes) = false
is_finished (finished bytes) = true

abbrev left_over : Reading → Text
left_over (reading bytes) = []
left_over (finished bytes) = bytes

abbrev streamer : Decompressor
streamer = record {
  Obj = Reading;
  fresh = reading [];
  decompress = λ obj chunk. read_on (so_far obj ++ chunk);
  eof = is_finished;
  unused_data = left_over;
}

abbrev Inside : Reading → Text → Text → Type 0
Inside obj rest content =
    (length (so_far obj ++ rest) ≡ 5) × (content ≡ drop 4 (so_far obj ++ rest))

take-all : (bytes after : Text) (n : ℕ) → length bytes ≡ n → take n (bytes ++ after) ≡ bytes
take-all [] after zero h = refl
take-all [] after (suc n) h = absurd (omega (arith, h))
take-all (b ∷ bytes) after zero h = absurd (omega (arith, h))
take-all (b ∷ bytes) after (suc n) h =
    ap (λ (t : Text). b ∷ t) (take-all bytes after n (omega (arith, h)))

drop-all : (bytes after : Text) (n : ℕ) → length bytes ≡ n → drop n (bytes ++ after) ≡ after
drop-all [] after zero h = refl
drop-all [] after (suc n) h = absurd (omega (arith, h))
drop-all (b ∷ bytes) after zero h = absurd (omega (arith, h))
drop-all (b ∷ bytes) after (suc n) h = drop-all bytes after n (omega (arith, h))

read_on-part : (bytes : Text) → length bytes < 5 → read_on bytes ≡ ok ([], reading bytes)
read_on-part bytes h = ground (arith, h)

read_on-last :
    (bytes after : Text)
    → length bytes ≡ 5
    → read_on (bytes ++ after) ≡ ok (drop 4 bytes, finished after)
read_on-last bytes after h =
    ground (arith, h, length-append bytes after, take-all bytes after 5 h, drop-all bytes after 5 h)

shorter :
    (seen rest : Text) (n : ℕ) → length (seen ++ rest) ≡ n → nonempty rest ≡ true → length seen < n
shorter seen [] n h full = absurd (cc)
shorter seen (b ∷ rest) n h full = omega (arith, h, length-append seen (b ∷ rest))

streams : Streams streamer Inside
streams = record {
  part = λ obj some_bytes rest content inside full.
      let seen = so_far obj ++ some_bytes in
      let same : so_far obj ++ (some_bytes ++ rest) ≡ seen ++ rest =
        sym (append_assoc (so_far obj) some_bytes rest) in
      let five : length (seen ++ rest) ≡ 5 = sym (ap length same) ∙ inside.0 in
      (
        reading seen,
        [],
        content,
        read_on-part seen (shorter seen rest 5 five full),
        refl,
        refl,
        (five, inside.1 ∙ ap (λ (t : Text). drop 4 t) same),
      );
  last = λ obj rest content after inside. (
    finished after,
    ap read_on (sym (append_assoc (so_far obj) rest after))
        ∙ (read_on-last (so_far obj ++ rest) after inside.0
            ∙ ap (λ (t : Text). ok (t, finished after)) (sym inside.1)),
    refl,
    refl,
  );
}

abbrev frames : List (Text × Text)
frames = (codes "A", codes "A") ∷ (codes "B", codes "B") ∷ []

iter_frames-joined_example : iter_frames streamer (joined frames) ≡ some (ends 0 frames)
iter_frames-joined_example =
    iter_frames-joined streamer Inside streams frames ((refl, refl), ((refl, refl), tt))
