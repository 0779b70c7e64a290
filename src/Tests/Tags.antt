-- ===== src/Tests/Tags.antt =====
-- Tags at concrete inputs: user 1 makes a tag and gives it to a file of the sample.
use networkdisk.Prelude.{ℕ, none, ◌≡◌, refl, List, [], ◌∷◌, arith, In, ◌≤◌}
use networkdisk.Text.{bytes}
use networkdisk.Model.{World}
use networkdisk.Exec.{err, bad_color, not_your_file}
use networkdisk.Files.Requests as Files
use networkdisk.Tags as Tags
use networkdisk.Tags.Owned.{IsTagged}
use networkdisk.Tags.Requests.{
  create, attach_files, Arrival, tags, files, run_arrivals, run_arrivals-IsTagged,
}
use networkdisk.Tests.Sample.{sample_env, sample_db, sample_world, sample-IsSound}

sample-IsTagged : IsTagged sample_db
sample-IsTagged = record {
  files = let s = sample-IsSound in s.bounded;
  tags = λ s m. absurd (elim m [ ]);
  unique = λ s t m n e. absurd (elim m [ ]);
  links = λ f t m. absurd (elim m [ ]);
}

abbrev tagged : World
tagged = (Tags.create 1 (bytes "work") [] sample_env sample_world).1

abbrev attached : World
attached = (Tags.attach_files 1 (1 ∷ []) (2 ∷ []) sample_env tagged).1

attached_test : attached.db.file_tags ≡ (2, 1) ∷ []
unfolding Tags.attach_files Tags.check_tags Tags.own_tag networkdisk.Store.Tags.tag_by_id
    Tags.create networkdisk.Store.Tags.create_tag networkdisk.Prelude.any networkdisk.Prelude.first
    networkdisk.Store.Files.files_by_ids networkdisk.Prelude.select Tags.attach_each
    networkdisk.Store.Tags.attach_file_tags networkdisk.Store.Tags.link_all
attached_test = refl

foreign_test : (Tags.attach_files 1 (1 ∷ []) (3 ∷ []) sample_env tagged).0 ≡ err not_your_file
unfolding Tags.attach_files Tags.check_tags Tags.own_tag networkdisk.Store.Tags.tag_by_id
    Tags.create networkdisk.Store.Tags.create_tag networkdisk.Prelude.any networkdisk.Prelude.first
    networkdisk.Store.Files.files_by_ids networkdisk.Prelude.select
foreign_test = refl

color_test :
    (Tags.create 1 (bytes "work") (bytes "#12345") sample_env sample_world).0 ≡ err bad_color
unfolding Tags.create
color_test = refl

-- User 1 makes a tag, attaches it to `a.txt`, renames the file and copies it; user 2 renames a file; user 1 then
-- deletes the directory.
abbrev arrivals : List Arrival
arrivals =
    tags (create 1 (bytes "work") [])
    ∷ tags (attach_files 1 (1 ∷ []) (2 ∷ []))
    ∷ files 1 (Files.rename_file 2 (bytes "c.txt"))
    ∷ files 1 (Files.copy_file 2 none)
    ∷ files 2 (Files.rename_file 3 (bytes "d.txt"))
    ∷ files 1 (Files.permanent_delete_file 1)
    ∷ []

run_arrivals-IsTagged_example : IsTagged (run_arrivals arrivals sample_env sample_world).db
run_arrivals-IsTagged_example =
    run_arrivals-IsTagged arrivals sample_env sample_world sample-IsSound sample-IsTagged
