-- ===== src/Frame/Destination.antt =====
-- The precomputed fields of a group against the prefix that is built for it.
use process_bus.Prelude.{ℕ, ◌+◌, ◌/◌, ◌%◌, ◌≡◌, refl, sym, ap, arith, length}
use process_bus.Memory.{Memory, at_offset, put_u16, put_u32, write}
use process_bus.Memory.Frames.{Agree, each_at, write-inside, write-below}
use process_bus.Frame.{FrameConfig, build_ip, build_prefix, make_dst_fields, set_dst, multicast_mac}
use process_bus.Frame.Checksum.{ipv4_checksum-agree}

-- The header of the skeleton with another group and no checksum is the header built for the group.
same_header :
    (buf : Memory) (cfg : FrameConfig) (n dst_ip : ℕ)
    → Agree 20
        (put_u16 (put_u32 (at_offset (build_prefix buf cfg n) 14) 16 dst_ip) 10 0)
        (at_offset (build_ip buf (record cfg { dst_ip = dst_ip }) n) 14)
unfolding build_prefix build_ip put_u16 put_u32
same_header buf cfg n dst_ip i h =
    each_at
      (λ j.
        put_u16 (put_u32 (at_offset (build_prefix buf cfg n) 14) 16 dst_ip) 10 0 j
        ≡ build_ip buf (record cfg { dst_ip = dst_ip }) n (14 + j))
      0 20 i (omega arith) h
      (
        refl,
        (
          refl,
          (
            refl,
            (
              refl,
              (
                refl,
                (
                  refl,
                  (
                    refl,
                    (
                      refl,
                      (
                        refl,
                        (
                          refl,
                          (
                            refl,
                            (
                              refl,
                              (refl, (refl, (refl, (refl, (refl, (refl, (refl, (refl, tt)))))))),
                            ),
                          ),
                        ),
                      ),
                    ),
                  ),
                ),
              ),
            ),
          ),
        ),
      )

-- Patching the destination fields of a group into a finished prefix gives the prefix that is built
-- for that group, checksum included, for every configuration with a 6-byte source address.
pub set_dst-build_prefix :
    (buf : Memory) (cfg : FrameConfig) (n dst_ip : ℕ)
    → length cfg.src_mac ≡ 6
    → let p = build_prefix buf cfg n in
      Agree 42
        (set_dst p (make_dst_fields p dst_ip))
        (build_prefix buf (record cfg { dst_ip = dst_ip }) n)
unfolding set_dst make_dst_fields build_prefix build_ip
set_dst-build_prefix buf cfg n dst_ip len i h =
    let p : Memory = build_prefix buf cfg n in
    let other : FrameConfig = record cfg { dst_ip = dst_ip } in
    let base : Memory = write buf 0 (multicast_mac cfg.dst_ip) in
    let base' : Memory = write buf 0 (multicast_mac dst_ip) in
    let sum = ipv4_checksum-agree _ _ (same_header buf cfg n dst_ip) in
    each_at (λ j. set_dst p (make_dst_fields p dst_ip) j ≡ build_prefix buf other n j) 0 42 i
      (omega arith) h
      (
        sym (write-below cfg.src_mac base' 6 0 (omega arith)),
        (
          sym (write-below cfg.src_mac base' 6 1 (omega arith)),
          (
            sym (write-below cfg.src_mac base' 6 2 (omega arith)),
            (
              sym (write-below cfg.src_mac base' 6 3 (omega arith)),
              (
                sym (write-below cfg.src_mac base' 6 4 (omega arith)),
                (
                  sym (write-below cfg.src_mac base' 6 5 (omega arith)),
                  (
                    write-inside cfg.src_mac base base' 6 6 (omega arith) (omega arith),
                    (
                      write-inside cfg.src_mac base base' 6 7 (omega arith) (omega arith),
                      (
                        write-inside cfg.src_mac base base' 6 8 (omega arith) (omega arith),
                        (
                          write-inside cfg.src_mac base base' 6 9 (omega arith) (omega arith),
                          (
                            write-inside cfg.src_mac base base' 6 10 (omega arith) (omega arith),
                            (
                              write-inside cfg.src_mac base base' 6 11 (omega arith) (omega arith),
                              (
                                refl,
                                (
                                  refl,
                                  (
                                    refl,
                                    (
                                      refl,
                                      (
                                        refl,
                                        (
                                          refl,
                                          (
                                            refl,
                                            (
                                              refl,
                                              (
                                                refl,
                                                (
                                                  refl,
                                                  (
                                                    refl,
                                                    (
                                                      refl,
                                                      (
                                                        ap (λ (v : ℕ). v / 256 % 256) sum,
                                                        (
                                                          ap (λ (v : ℕ). v % 256) sum,
                                                          (
                                                            refl,
                                                            (
                                                            refl,
                                                            (
                                                            refl,
                                                            (
                                                            refl,
                                                            (
                                                            refl,
                                                            (
                                                            refl,
                                                            (
                                                            refl,
                                                            (
                                                            refl,
                                                            (
                                                            refl,
                                                            (
                                                            refl,
                                                            (
                                                            refl,
                                                            (
                                                            refl,
                                                            (refl, (refl, (refl, (refl, tt)))),
                                                            ),
                                                            ),
                                                            ),
                                                            ),
                                                            ),
                                                            ),
                                                            ),
                                                            ),
                                                            ),
                                                            ),
                                                            ),
                                                          ),
                                                        ),
                                                      ),
                                                    ),
                                                  ),
                                                ),
                                              ),
                                            ),
                                          ),
                                        ),
                                      ),
                                    ),
                                  ),
                                ),
                              ),
                            ),
                          ),
                        ),
                      ),
                    ),
                  ),
                ),
              ),
            ),
          ),
        ),
      )
