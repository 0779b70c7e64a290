-- ===== src/Store/Tags.antt =====
-- internal/store/tag.go: the methods on the tables `tags` and `file_tags`.
use networkdisk.Prelude.{
  ℕ, ◌+◌, Bool, not, ◌&&◌, ◌||◌, List, [], ◌∷◌, ltb, ◌==◌, if◌then◌else◌, length, contains, first,
  select, any,
}
use networkdisk.Text.{Text}
use networkdisk.Model.{File, Tag, Db, Env}
use networkdisk.Exec.{
  ok, err, bad_id, no_key, name_too_long, foreign_key, duplicate_key, Exec, pure, raise_if, call,
  transaction, put_db, ◌>>=◌, ◌>>◌,
}
use networkdisk.Store.Sql.{
  has_id, is_empty, is_live, must_be_positive, all_positive, query_row, query, exec, user_exists,
}

abbrev pub has_tag : ℕ → Tag → Bool
has_tag i t = t.id == i

-- The unique key on owner and name.
abbrev pub same_tag : Env → ℕ → Text → Tag → Bool
same_tag v u n t = t.user_id == u && v.same_text t.name n

abbrev pub insert_tag : Tag → Db → Db
insert_tag t d = record d {
  tags = record t { id = d.last_tag + 1 } ∷ d.tags;
  last_tag = d.last_tag + 1;
}

unfoldable pub tag_by_id : ℕ → Exec Tag
unfolding call
tag_by_id i = must_be_positive i (call (query_row (λ v d. first (has_tag i) d.tags)))

unfoldable pub create_tag : Tag → Exec Tag
unfolding call ◌>>=◌ tag_by_id
create_tag t = must_be_positive t.user_id (
    raise_if (is_empty t.name) no_key (
      raise_if (ltb 64 (length t.name)) name_too_long (do
        i ← call λ v w.
            if not (user_exists t.user_id w.db)
            then (err foreign_key, w)
            else if any (same_tag v t.user_id t.name) w.db.tags
            then (err duplicate_key, w)
            else (ok (w.db.last_tag + 1), put_db (insert_tag t w.db) w)
        tag_by_id i)))

-- The order of the rows is left out.
unfoldable pub tags_by_user : ℕ → Exec (List Tag)
unfolding call
tags_by_user u = must_be_positive u (call (query (λ v d. select (λ t. t.user_id == u) d.tags)))

abbrev pub links_to : ℕ → ℕ × ℕ → Bool
links_to i (f, t) = t == i

-- The foreign key of `file_tags` removes the pairs of the tag.
abbrev pub remove_tag : ℕ → Db → Db
remove_tag i d = record d {
  tags = select (λ t. not (has_tag i t)) d.tags;
  file_tags = select (λ l. not (links_to i l)) d.file_tags;
}

unfoldable pub delete_tag : ℕ → Exec (Unit {0})
unfolding call
delete_tag i = must_be_positive i (call (exec (remove_tag i)))

abbrev pub is_link : ℕ → ℕ → ℕ × ℕ → Bool
is_link f t (g, s) = g == f && s == t

-- `INSERT IGNORE`: no row where there is one, or where a foreign key fails.
abbrev pub link : ℕ → ℕ → Db → Db
link f t d =
    if any (has_id f) d.files && any (has_tag t) d.tags && not (any (is_link f t) d.file_tags)
    then record d { file_tags = (f, t) ∷ d.file_tags }
    else d

unfoldable pub link_all : ℕ → List ℕ → Exec (Unit {0})
unfolding call ◌>>=◌
link_all f [] = pure tt
link_all f (t ∷ ts) = call (exec (link f t)) >> link_all f ts

unfoldable pub attach_file_tags : ℕ → List ℕ → Exec (Unit {0})
unfolding transaction
attach_file_tags f [] = pure tt
attach_file_tags f (t ∷ ts) =
    if f == 0
    then pure tt
    else raise_if (not (all_positive (t ∷ ts))) bad_id (transaction (link_all f (t ∷ ts)))

abbrev pub is_link_among : ℕ → List ℕ → ℕ × ℕ → Bool
is_link_among f ts (g, s) = g == f && contains s ts

unfoldable pub detach_file_tags : ℕ → List ℕ → Exec (Unit {0})
unfolding call
detach_file_tags f [] = pure tt
detach_file_tags f (t ∷ ts) =
    if f == 0
    then pure tt
    else call (
        exec (λ d. record d {
          file_tags = select (λ l. not (is_link_among f (t ∷ ts) l)) d.file_tags;
        }))

abbrev is_tagged : Db → ℕ → ℕ → File → Bool
is_tagged d t u f = f.user_id == u && is_live f && any (is_link f.id t) d.file_tags

abbrev ids_of : List File → List ℕ
ids_of [] = []
ids_of (f ∷ fs) = f.id ∷ ids_of fs

unfoldable pub file_ids_by_tag : ℕ → ℕ → Exec (List ℕ)
unfolding call
file_ids_by_tag t u =
    raise_if (t == 0 || u == 0) bad_id
      (call (query (λ v d. ids_of (select (is_tagged d t u) d.files))))

unfoldable pub file_tags : ℕ → Exec (List Tag)
unfolding call
file_tags f =
    must_be_positive f (call (query (λ v d. select (λ t. any (is_link f t.id) d.file_tags) d.tags)))
