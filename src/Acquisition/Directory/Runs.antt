-- ===== src/Acquisition/Directory/Runs.antt =====
-- A run of LocalDirectorySource (src/adapt/runtime/sources.py): the files that it takes, and the message
-- for each of them.
use adapt.Prelude.{
  ℕ, ◌+◌, ◌≡◌, refl, sym, ap, subst, ◌∙◌, Bool, true, false, not, ◌&&◌, some, List, [], ◌∷◌, ◌++◌,
  map, append_assoc, append-nil, arith, Text, text_eq, text_beq, text_ltb, ltb, leb, length,
  length-map, keep, count_if, count_if-sorted_by, All, if◌then◌else◌,
}
use adapt.Exec.{Result, ok, lift, ◌>>◌, >>=-returns}
use adapt.Persistence.Objects.{Bytes}
use adapt.Acquisition.{ScanMessage, acquire_file}
use adapt.Acquisition.Repeated.{IsStored, acquire_file-IsStored}
use adapt.Acquisition.Kept.{acquire_file-IsStored_later}
use adapt.Acquisition.Directory.{
  DirectoryEntry, DirectorySource, from_store, files_of, offer, offer_all, run_source,
}

count_if-keep {ℓ} :
    {A : Type ℓ} (p q : A → Bool) (xs : List A)
    → count_if p (keep q xs) ≡ count_if (λ x. q x && p x) xs
count_if-keep p q [] = refl
count_if-keep p q (x ∷ xs) = ground (arith, count_if-keep p q xs)

count_if-map {ℓ κ} :
    {A : Type ℓ} {B : Type κ} (p : B → Bool) (f : A → B) (xs : List A)
    → count_if p (map f xs) ≡ count_if (λ x. p (f x)) xs
count_if-map p f [] = refl
count_if-map p f (x ∷ xs) = ap (λ n. (if p (f x) then 1 else 0) + n) (count_if-map p f xs)

-- The entry is the file of the path, and it has the least size.
abbrev pub is_taken : (min_file_size : ℕ) → (path : Text) → DirectoryEntry → Bool
is_taken min_file_size path e = e.is_file && leb min_file_size e.size && text_beq path e.path

count_same {ℓ} :
    {A : Type ℓ} (p q : A → Bool) (xs : List A)
    → ((x : A) → p x ≡ q x)
    → count_if p xs ≡ count_if q xs
count_same p q [] h = refl
count_same p q (x ∷ xs) h =
    ap (λ b. (if b then 1 else 0) + count_if p xs) (h x)
    ∙ ap (λ n. (if q x then 1 else 0) + n) (count_same p q xs h)

files_taken :
    (min_file_size : ℕ) (path : Text) (entries : List DirectoryEntry)
    → count_if (λ e. text_beq path e.path) (files_of min_file_size entries)
      ≡ count_if (is_taken min_file_size path) entries
files_taken min_file_size path entries =
    count_if-keep (λ e. text_beq path e.path) (λ e. not (ltb e.size min_file_size)) _
    ∙ count_if-sorted_by (λ a b. text_ltb a.path b.path) _ (keep (λ e. e.is_file) entries)
    ∙ count_if-keep _ (λ e. e.is_file) entries
    ∙ count_same _ _ entries (λ e. ground arith)

-- From d to d', one message is queued for each of the files, in order; it names the artifact and the
-- scan that the catalog has for the path.
record Offered (files : List DirectoryEntry) (queue : List ScanMessage) (d d' : DirectorySource)
    : Type 0 where
  handed : List (Text × ScanMessage)
  paths : map (λ x. x.0) handed ≡ map (λ e. e.path) files
  queue_now : d'.result_queue ≡ some (queue ++ map (λ x. x.1) handed)
  stored : All (λ x. IsStored x.0 x.1 d'.store.catalog) handed
  stays :
      (key : Text) (m : ScanMessage)
      → IsStored key m d.store.catalog
      → IsStored key m d'.store.catalog
  count : d'.queued ≡ d.queued + length files
  same_total : d'.total ≡ d.total

module _ (sha256 : Bytes → Text) (run_id : Text) where
  -- A turn that returns has put the message of the acquirer behind the others.
  record OfferedOne (e : DirectoryEntry) (queue : List ScanMessage) (d d' : DirectorySource)
      : Type 0 where
    message : ScanMessage
    queue_now : d'.result_queue ≡ some (queue ++ message ∷ [])
    stored : IsStored e.path message d'.store.catalog
    stays :
        (key : Text) (m : ScanMessage)
        → IsStored key m d.store.catalog
        → IsStored key m d'.store.catalog
    count : d'.queued ≡ d.queued + 1
    same_total : d'.total ≡ d.total

  offer-one :
      (e : DirectoryEntry) (queue : List ScanMessage) (d : DirectorySource)
      → (offer sha256 run_id e (some queue) d).0 ≡ ok tt
      → OfferedOne e queue d (offer sha256 run_id e (some queue) d).1
  unfolding offer
  offer-one e queue d h =
      let (time, _, h', here) = >>=-returns (lift e.scan_time) _ d tt h in
      let call = acquire_file sha256 run_id e.readings e.file e.path (some time) in
      let (m, one, _, there) = >>=-returns (from_store call) _ d tt h' in
      let same = here ∙ there in
      record {
        message = m;
        queue_now = ap (λ (x : Result (Unit {0}) × DirectorySource). x.1.result_queue) same;
        stored =
            subst (λ (x : Result (Unit {0}) × DirectorySource). IsStored e.path m x.1.store.catalog)
              (sym same)
              (acquire_file-IsStored sha256 run_id e.readings e.file e.path (some time) d.store m
                one);
        stays = λ key n there_before.
            subst (λ (x : Result (Unit {0}) × DirectorySource). IsStored key n x.1.store.catalog)
              (sym same)
              (acquire_file-IsStored_later sha256 run_id e.readings key n e.file e.path (some time)
                d.store there_before);
        count = ap (λ (x : Result (Unit {0}) × DirectorySource). x.1.queued) same;
        same_total = ap (λ (x : Result (Unit {0}) × DirectorySource). x.1.total) same;
      }

  offer_step :
      (e : DirectoryEntry) (entries : List DirectoryEntry) (queue : List ScanMessage)
      (d : DirectorySource)
      → e.stopped ≡ false
      → d.result_queue ≡ some queue
      → offer_all sha256 run_id (e ∷ entries) d
        ≡ (offer sha256 run_id e (some queue) >> offer_all sha256 run_id entries) d
  unfolding offer_all
  offer_step e entries queue d go has_queue =
      ap
        (λ b.
          if b
          then (ok tt, d)
          else (offer sha256 run_id e d.result_queue >> offer_all sha256 run_id entries) d)
        go
      ∙ ap (λ q. (offer sha256 run_id e q >> offer_all sha256 run_id entries) d) has_queue

  joined :
      (e : DirectoryEntry) (entries : List DirectoryEntry) (queue : List ScanMessage)
      (d d' d'' : DirectorySource) (first : OfferedOne e queue d d')
      → Offered entries (queue ++ first.message ∷ []) d' d''
      → Offered (e ∷ entries) queue d d''
  joined e entries queue d d' d'' first rest = record {
    handed = (e.path, first.message) ∷ rest.handed;
    paths = ap (◌∷◌ e.path) rest.paths;
    queue_now = rest.queue_now ∙ rw append_assoc refl;
    stored = (rest.stays e.path first.message first.stored, rest.stored);
    stays = λ key m h. rest.stays key m (first.stays key m h);
    count = omega (arith, rest.count, first.count);
    same_total = rest.same_total ∙ first.same_total;
  }

  offer_all-Offered :
      (entries : List DirectoryEntry) (queue : List ScanMessage) (d : DirectorySource)
      → d.result_queue ≡ some queue
      → All (λ e. e.stopped ≡ false) entries
      → (offer_all sha256 run_id entries d).0 ≡ ok tt
      → Offered entries queue d (offer_all sha256 run_id entries d).1
  unfolding offer_all
  offer_all-Offered [] queue d has_queue going h = record {
    handed = [];
    paths = refl;
    queue_now = has_queue ∙ rw append-nil refl;
    stored = tt;
    stays = λ key m there. there;
    count = omega arith;
    same_total = refl;
  }
  offer_all-Offered (e ∷ entries) queue d has_queue (go, going) h =
      let step = offer_step e entries queue d go has_queue in
      let (t, one, h', there) =
        >>=-returns (offer sha256 run_id e (some queue)) (λ _. offer_all sha256 run_id entries) d tt
          (sym (ap (λ (x : Result (Unit {0}) × DirectorySource). x.0) step) ∙ h) in
      let behind = (offer sha256 run_id e (some queue) d).1 in
      let first = offer-one e queue d one in
      let rest =
        offer_all-Offered entries (queue ++ first.message ∷ []) behind first.queue_now going h' in
      subst (λ (x : Result (Unit {0}) × DirectorySource). Offered (e ∷ entries) queue d x.1)
        (sym (step ∙ there)) (joined e entries queue d behind _ first rest)

-- What a run has done: behind the messages that there were, the queue has one for each file of the
-- least size among the entries, which names the artifact and the scan that the catalog has for its
-- path; as many are counted and announced, and the source is complete.
pub record TakesAll (min_file_size : ℕ) (entries : List DirectoryEntry) (queue : List ScanMessage)
    (d d' : DirectorySource) : Type 0 where
  pub handed : List (Text × ScanMessage)
  pub queue_now : d'.result_queue ≡ some (queue ++ map (λ x. x.1) handed)
  pub stored : All (λ x. IsStored x.0 x.1 d'.store.catalog) handed
  pub taken :
      (path : Text)
      → count_if (λ x. text_beq path x.0) handed ≡ count_if (is_taken min_file_size path) entries
  pub count : d'.queued ≡ d.queued + length handed
  pub announced : d'.total ≡ length handed
  pub done : d'.complete ≡ true

-- A run that returns, has a queue and was not told to stop has queued, behind the messages that there
-- were, as many messages for each path as there are files of the path and of the least size among the
-- entries of the directory; each message names the artifact and the scan that the catalog then has for
-- its path. As many are counted and announced, and the source is complete.
pub run_source-TakesAll :
    (sha256 : Bytes → Text) (run_id : Text) (min_file_size : ℕ) (entries : List DirectoryEntry)
    (queue : List ScanMessage) (d : DirectorySource)
    → d.result_queue ≡ some queue
    → All (λ e. e.stopped ≡ false) (files_of min_file_size entries)
    → (run_source sha256 run_id min_file_size entries d).0 ≡ ok tt
    → TakesAll min_file_size entries queue d (run_source sha256 run_id min_file_size entries d).1
unfolding run_source
run_source-TakesAll sha256 run_id min_file_size entries queue d has_queue going h =
    let files = files_of min_file_size entries in
    let start : DirectorySource = record d { total = length files } in
    let (t, done, _, there) = >>=-returns (offer_all sha256 run_id files) _ start tt h in
    let all = offer_all-Offered sha256 run_id files queue start has_queue going done in
    let as_many : length all.handed ≡ length files =
      sym (length-map (λ x. x.0) all.handed)
      ∙ ap length all.paths
      ∙ length-map (λ e. e.path) files in
    let behind = (offer_all sha256 run_id files start).1 in
    subst (λ (x : Result (Unit {0}) × DirectorySource). TakesAll min_file_size entries queue d x.1)
      (sym there)
      (record {
        handed = all.handed;
        queue_now = all.queue_now;
        stored = all.stored;
        taken = λ path.
            sym (count_if-map (text_beq path) (λ x. x.0) all.handed)
            ∙ ap (count_if (text_beq path)) all.paths
            ∙ count_if-map (text_beq path) (λ e. e.path) files
            ∙ files_taken min_file_size path entries;
        count = omega (arith, all.count, as_many);
        announced = all.same_total ∙ sym as_many;
        done = refl;
      })
