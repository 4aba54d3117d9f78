-- ===== src/Audio/Track.antt =====
-- Include/AudioTrackID.h: the play-list.

-- `AudioTrackID`; `max_tracks` is MaxTracks, the end of the list, which stands for "no track".
pub data AudioTrackId : Type 0 where
  scale alarm1 alarm2 alert1 alert2 bad_input boot_tune : AudioTrackId
  docked key_press long quick quick_three scan nova max_tracks : AudioTrackId

AudioTrackId-discrete : Discrete AudioTrackId
AudioTrackId-discrete = hlevel
