-- ===== src/Eviction/Removal.antt =====
-- internal/application/service.go, `removeTorrent`: what the removal of a torrent does to the rows.
use filelist_streaming_servi.Base.{
  ◌<◌, ◌≤◌, ◌≡◌, true, false, not, none, List, [], ◌∷◌, String, str_eq, eq_iff, arith, All, In,
  length, length-keep-le, length-keep-lt, In-of_In-keep, In-keep,
}
use filelist_streaming_servi.Domain.{Download}
use filelist_streaming_servi.World.{World, Env, delete_download}
use filelist_streaming_servi.Eviction.{forget_rows, remove_torrent}

In-delete_download :
    (d : Download) (id : String) (w : World)
    → In d w.downloads
    → str_eq d.id id ≡ false
    → In d (delete_download id w).downloads
unfolding delete_download
In-delete_download d id w m e =
    In-keep (λ row. not (str_eq row.id id)) d w.downloads m (ground arith)

In-of_In-delete_download :
    (d : Download) (id : String) (w : World)
    → In d (delete_download id w).downloads
    → In d w.downloads
unfolding delete_download
In-of_In-delete_download d id w m =
    (In-of_In-keep (λ row. not (str_eq row.id id)) d w.downloads m).0

length-delete_download-le :
    (id : String) (w : World) → length (delete_download id w).downloads ≤ length w.downloads
unfolding delete_download
length-delete_download-le id w = length-keep-le (λ row. not (str_eq row.id id)) w.downloads

length-delete_download-lt :
    (d : Download) (id : String) (w : World)
    → In d w.downloads
    → str_eq d.id id ≡ true
    → length (delete_download id w).downloads < length w.downloads
unfolding delete_download
length-delete_download-lt d id w m e =
    length-keep-lt (λ row. not (str_eq row.id id)) d w.downloads m (ground arith)

module _ (env : Env) (engine_id : String) where
  -- No row appears.
  pub In-of_In-forget_rows :
      (d : Download) (items : List Download) (w : World)
      → In d (forget_rows env engine_id items w).0.downloads
      → In d w.downloads
  unfolding forget_rows
  In-of_In-forget_rows d [] w m = m
  In-of_In-forget_rows d (item ∷ items) w m = ground (
    arith,
    In-of_In-forget_rows d items w,
    In-of_In-forget_rows d items (delete_download item.id w),
    In-of_In-delete_download d item.id w,
  )

  length-forget_rows-le :
      (items : List Download) (w : World)
      → length (forget_rows env engine_id items w).0.downloads ≤ length w.downloads
  unfolding forget_rows
  length-forget_rows-le [] w = omega arith
  length-forget_rows-le (item ∷ items) w = ground (
    arith,
    length-forget_rows-le items w,
    length-forget_rows-le items (delete_download item.id w),
    length-delete_download-le item.id w,
  )

  -- Where every deletion succeeds, a row of the torrent is gone.
  pub length-forget_rows-lt :
      (d : Download) (items : List Download) (w : World)
      → In d items
      → In d w.downloads
      → str_eq d.engine_id engine_id ≡ true
      → (forget_rows env engine_id items w).1 ≡ none
      → length (forget_rows env engine_id items w).0.downloads < length w.downloads
  unfolding forget_rows
  length-forget_rows-lt d [] w m n e h = absurd m
  length-forget_rows-lt d (item ∷ items) w m n e h = ground (
    arith,
    length-forget_rows-lt d items w,
    length-forget_rows-lt d items (delete_download item.id w),
    length-forget_rows-le items (delete_download item.id w),
    length-delete_download-lt d item.id w n,
    length-delete_download-le item.id w,
    In-delete_download d item.id w n,
    eq_iff d.id item.id,
  )

  -- A row whose id none of the torrent's rows has stays.
  pub In-forget_rows :
      (d : Download) (items : List Download) (w : World)
      → All (λ item. str_eq item.engine_id engine_id ≡ true → str_eq d.id item.id ≡ false) items
      → In d w.downloads
      → In d (forget_rows env engine_id items w).0.downloads
  unfolding forget_rows
  In-forget_rows d [] w a m = m
  In-forget_rows d (item ∷ items) w a m = ground (
    arith,
    In-forget_rows d items w a.1,
    In-forget_rows d items (delete_download item.id w) a.1,
    a.0,
    In-delete_download d item.id w m,
  )

  pub length-remove_torrent-lt :
      (d : Download) (w : World)
      → In d w.downloads
      → str_eq d.engine_id engine_id ≡ true
      → (remove_torrent env engine_id w).1 ≡ none
      → length (remove_torrent env engine_id w).0.downloads < length w.downloads
  unfolding remove_torrent
  length-remove_torrent-lt d w m e h = grind (arith, length-forget_rows-lt)

  pub In-remove_torrent :
      (d : Download) (w : World)
      → All
          (λ item. str_eq item.engine_id engine_id ≡ true → str_eq d.id item.id ≡ false)
          w.downloads
      → In d w.downloads
      → In d (remove_torrent env engine_id w).0.downloads
  unfolding remove_torrent
  In-remove_torrent d w a m = grind (arith, In-forget_rows)

  pub In-of_In-remove_torrent :
      (d : Download) (w : World)
      → In d (remove_torrent env engine_id w).0.downloads
      → In d w.downloads
  unfolding remove_torrent
  In-of_In-remove_torrent d w m = grind (arith, In-of_In-forget_rows)
